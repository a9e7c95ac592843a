-- ===== src/Provider/Producer/Accounts.antt =====
-- The counters and the topic after a run of the producer, against the rows.
use radiation_tracking.Prelude.{
  ℕ, suc, ◌+◌, ◌≡◌, ap, ◌∙◌, String, Option, List, ◌++◌, append_assoc, length, length-append, arith,
}
use radiation_tracking.Python.{Number, Fields, Result, ok}
use radiation_tracking.Provider.Rows.{CsvRow}
use radiation_tracking.Provider.SensorClassifier.{Trigonometry}
use radiation_tracking.Provider.Speed.{Speed, apply_speed}
use radiation_tracking.Provider.Producer.{Delivery, Producer, pause, produce}
use radiation_tracking.Provider.Producer.Counts.{
  CarriesEach, CarriesEach-append, total, acknowledged, total-append, acknowledged-append, accepts,
  fails,
}

module _ {F : Type 0} ⦃n : Number F⦄ (trig : Trigonometry F) (threshold_m : F)
    (hexdigest : String → String) (parse_uploaded : Option String → Option F)
    (size_of : Fields F → ℕ) (deliver : ℕ → Delivery) (speed : Speed F)
    (sleep : F → Result (Unit {0})) where
  abbrev running : Producer F → List CsvRow → Result (Producer F)
  running = produce trig threshold_m hexdigest parse_uploaded size_of deliver speed sleep

  -- What a run from `p` over some rows with these events leaves in `p'`.
  abbrev pub Accounts : Producer F → List (Fields F) → ℕ → Producer F → Type 0
  Accounts p events rows p' =
      (p'.attempts ≡ p.attempts + length events)
      × (p'.metrics.sent ≡ p.metrics.sent + total deliver accepts p.attempts events)
      × (p'.metrics.errors ≡ p.metrics.errors + total deliver fails p.attempts events)
      × (p'.metrics.discarded + length events ≡ p.metrics.discarded + rows)
      × ((ms : List (String × Fields F)) × (p'.topic ≡ p.topic ++ ms)
          × CarriesEach (acknowledged deliver p.attempts events) ms)

  -- Whatever the upload times of two events are, the delay between them is computed without an
  -- exception, and `time.sleep` takes it.
  abbrev pub Pauses : Type 0
  Pauses =
      (current prev : Option F)
      → (delay : Option F) × (apply_speed speed current prev ≡ ok delay)
        × (pause sleep delay ≡ ok tt)

  joined :
      (p p1 p2 : Producer F) (es fs : List (Fields F)) (rows : ℕ)
      → Accounts p es 1 p1
      → Accounts p1 fs rows p2
      → Accounts p (es ++ fs) (suc rows) p2
  joined p p1 p2 es fs rows h k =
      let (ms, on_topic, carried) = h.4 in
      let (ns, later_topic, later_carried) = k.4 in
      let at : p1.attempts ≡ p.attempts + length es = h.0 in
      (
        omega (arith, length-append es fs),
        counted accepts p.metrics.sent p1.metrics.sent p2.metrics.sent p.attempts p1.attempts es fs
            at h.1 k.1,
        counted fails p.metrics.errors p1.metrics.errors p2.metrics.errors p.attempts p1.attempts es
            fs at h.2 k.2,
        omega (arith, length-append es fs),
        (
          ms ++ ns,
          later_topic ∙ ap (λ l. l ++ ns) on_topic ∙ append_assoc p.topic ms ns,
          rw (acknowledged-append deliver p.attempts es fs, ← at)
              (CarriesEach-append (acknowledged deliver p.attempts es)
                (acknowledged deliver p1.attempts fs) ms ns carried later_carried),
        ),
      )
    where
      counted :
          (count : Delivery → ℕ) (before between after a b : ℕ) (es fs : List (Fields F))
          → b ≡ a + length es
          → between ≡ before + total deliver count a es
          → after ≡ between + total deliver count b fs
          → after ≡ before + total deliver count a (es ++ fs)
      counted count before between after a b es fs at h k =
          omega (arith, total-append deliver count a es fs, ap (λ c. total deliver count c fs) at)
