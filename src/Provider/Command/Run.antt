-- ===== src/Provider/Command/Run.antt =====
-- What a run of the command does with the rows of its file.
use radiation_tracking.Prelude.{ℕ, ◌≡◌, String, Bool, true, false, Option, List}
use radiation_tracking.Python.{Number, Result, Fields, ok}
use radiation_tracking.Provider.SensorClassifier.{Trigonometry}
use radiation_tracking.Provider.Speed.{Speed, rate, multiplier, unthrottled}
use radiation_tracking.Provider.Producer.{Delivery, Producer}
use radiation_tracking.Provider.Producer.Accounts.{Accounts}

module _ {F : Type 0} ⦃n : Number F⦄ (lower : String → String) (is_finite : F → Bool)
    (trig : Trigonometry F) (hexdigest : String → String)
    (parse_uploaded : Option String → Option F) (size_of : Fields F → ℕ) (deliver : ℕ → Delivery)
    (sleep : F → Result (Unit {0})) where
  -- `time.sleep` takes the delays of a speed: 1/N seconds at a rate N, and at a multiplier any of
  -- more than zero and at most five seconds.
  abbrev pub SleepsAt : Speed F → Type 0
  SleepsAt unthrottled = Unit
  SleepsAt (rate num) = sleep (n.div (n.of_ℕ 1) num) ≡ ok tt
  SleepsAt (multiplier num) =
      (delay : F) → n.lt n.zero delay ≡ true → n.lt (n.of_ℕ 5) delay ≡ false → sleep delay ≡ ok tt
