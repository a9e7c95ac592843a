-- ===== src/Flink/AlertDetection/Sustained.antt =====
-- flink-jobs/operators/alert_detection.py: when a window gives an alert, and which.
use radiation_tracking.Prelude.{
  ℕ, ◌≤◌, String, ◌≡◌, refl, ap, true, false, Option, none, some, List, [], ◌∷◌, All, Memᴰ, length,
  ltb, arith,
}
use radiation_tracking.Prelude.Int.{ℤ, ltb_ℤ}
use radiation_tracking.Python.{
  Number, Order, Result, ok, traverse, Each, traverse-Each, Datetime, num, Fields, get,
}
use radiation_tracking.Python.Extrema.{best_from, best_from-All, best_from-Memᴰ}
use radiation_tracking.Flink.GeoAggregation.{cpm_values}
use radiation_tracking.Flink.GeoAggregation.Blob.{lt_irrefl}
use radiation_tracking.Flink.AlertDetection.{
  breach_sort_key, keyed, latest_breach, alert_of, breaches_of, detect_sustained_high,
}

lt_irrefl_ℤ : (a : ℤ) → ltb_ℤ a a ≡ false
lt_irrefl_ℤ a = ground arith

lt_trans_ℤ : (a b c : ℤ) → ltb_ℤ a b ≡ true → ltb_ℤ b c ≡ true → ltb_ℤ a c ≡ true
lt_trans_ℤ a b c h k = ground arith

module _ {F D : Type 0} (t : Datetime D) where
  -- The breaches of a window with their times, and the one with the latest.
  pub record Latest (breaches : List (Fields F)) (times : List ℤ) : Type 0 where
    pub latest : Fields F
    pub time : ℤ
    pub chosen : latest_breach t breaches ≡ ok latest
    pub timed : breach_sort_key t latest ≡ ok time
    pub among : Memᴰ latest breaches
    pub newest : All (λ other. ltb_ℤ time other ≡ false) times

  abbrev pairs : List ℤ → List (Fields F) → List (ℤ × Fields F)
  pairs (k ∷ ks) (e ∷ es) = (k, e) ∷ pairs ks es
  pairs _ _ = []

  keyed-pairs :
      (breaches : List (Fields F)) (times : List ℤ)
      → Each (breach_sort_key t) breaches times
      → traverse (keyed t) breaches ≡ ok (pairs times breaches)
  unfolding traverse keyed
  keyed-pairs [] [] h = refl
  keyed-pairs (e ∷ es) (k ∷ ks) h = rw (h.0, keyed-pairs es ks h.1) refl
  keyed-pairs [] (k ∷ ks) h = absurd h
  keyed-pairs (e ∷ es) [] h = absurd h

  of_pair :
      (breaches : List (Fields F)) (times : List ℤ) (p : ℤ × Fields F)
      → Each (breach_sort_key t) breaches times
      → Memᴰ p (pairs times breaches)
      → Memᴰ p.1 breaches × (breach_sort_key t p.1 ≡ ok p.0)
  of_pair (e ∷ es) (k ∷ ks) p h (Memᴰ.head same) = (Memᴰ.head (ap (λ q. q.1) same), rw same h.0)
  of_pair (e ∷ es) (k ∷ ks) p h (Memᴰ.tail m) =
      let below = of_pair es ks p h.1 m in (Memᴰ.tail below.0, below.1)
  of_pair [] [] p h m = elim m [ ]
  of_pair [] (k ∷ ks) p h m = absurd h
  of_pair (e ∷ es) [] p h m = absurd h

  times_of_pairs :
      (breaches : List (Fields F)) (times : List ℤ) (time : ℤ)
      → Each (breach_sort_key t) breaches times
      → All (λ (q : ℤ × Fields F). ltb_ℤ time q.0 ≡ false) (pairs times breaches)
      → All (λ other. ltb_ℤ time other ≡ false) times
  times_of_pairs [] [] time h all = tt
  times_of_pairs (e ∷ es) (k ∷ ks) time h all = (all.0, times_of_pairs es ks time h.1 all.1)
  times_of_pairs [] (k ∷ ks) time h all = absurd h
  times_of_pairs (e ∷ es) [] time h all = absurd h

  latest_lem :
      (breaches : List (Fields F)) (times : List ℤ)
      → Each (breach_sort_key t) breaches times
      → 1 ≤ length breaches
      → Latest breaches times
  unfolding latest_breach
  latest_lem [] times h one = absurd (omega arith)
  latest_lem (e ∷ es) [] h one = absurd h
  latest_lem (e ∷ es) (k ∷ ks) h one =
      let top = best_from ltb_ℤ (λ p. p.0) (k, e) (pairs ks es) in
      let facts =
        of_pair (e ∷ es) (k ∷ ks) top h (best_from-Memᴰ ltb_ℤ (λ p. p.0) (k, e) (pairs ks es)) in
      record {
        latest = top.1;
        time = top.0;
        chosen = rw (keyed-pairs (e ∷ es) (k ∷ ks) h) refl;
        timed = facts.1;
        among = facts.0;
        newest =
            times_of_pairs (e ∷ es) (k ∷ ks) top.0 h
              (best_from-All ltb_ℤ (λ p. p.0) lt_irrefl_ℤ lt_trans_ℤ (k, e) (pairs ks es));
      }

module _ {F D : Type 0} ⦃n : Number F⦄ (t : Datetime D) where
  -- A result that is an alert for a window: it counts the breaches, its cpm is one of their readings
  -- that none exceeds, and its place is that of one of them that none is captured after.
  pub record Alerted (result : Result (Option (Fields F))) (breaches : List (Fields F))
      (readings : List F) (times : List ℤ) : Type 0 where
    pub alert : Fields F
    pub latest : Fields F
    pub top : F
    pub time : ℤ
    pub raised : result ≡ ok (some alert)
    pub breach_count : get alert "breach_count" ≡ num (n.of_ℕ (length breaches))
    pub cpm : get alert "cpm" ≡ num top
    pub reading : Memᴰ top readings
    pub highest : All (λ v. n.lt top v ≡ false) readings
    pub latitude : get alert "latitude" ≡ get latest "latitude"
    pub longitude : get alert "longitude" ≡ get latest "longitude"
    pub among : Memᴰ latest breaches
    pub timed : breach_sort_key t latest ≡ ok time
    pub newest : All (λ other. ltb_ℤ time other ≡ false) times

  -- What is known of a window: that it has too few breaches, or that it has enough, that their
  -- readings are floats, and that their sort keys raise nothing.
  pub data Window (events : List (Fields F)) (min_breaches : ℕ) : Type 0 where
    few : ltb (length (breaches_of events)) min_breaches ≡ true → Window events min_breaches
    enough :
        (x : F) (xs : List F) (times : List ℤ)
        → min_breaches ≤ length (breaches_of events)
        → cpm_values (breaches_of events) ≡ ok (x ∷ xs)
        → traverse (breach_sort_key t) (breaches_of events) ≡ ok times
        → Window events min_breaches

  abbrev pub Outcome :
      (events : List (Fields F)) (min_breaches : ℕ)
      → Window events min_breaches
      → Result (Option (Fields F))
      → Type 0
  Outcome events min_breaches (few h) result = result ≡ ok none
  Outcome events min_breaches (enough x xs times h hc ht) result =
      Alerted result (breaches_of events) (x ∷ xs) times

  -- For a min_breaches of at least 1: a window with fewer DANGER events than that gives no alert,
  -- whatever they hold. With so many or more, of which the readings are floats, at least one, and
  -- no captured_at raises AttributeError, it gives one that counts them, whose cpm is one of
  -- their readings that none exceeds, and whose place is that of one of them that none is
  -- captured after.
  pub detect_sustained_high_lem :
      (laws : Order n) (events : List (Fields F)) (sensor_id window_start window_end : String)
      (min_breaches : ℕ)
      → 1 ≤ min_breaches
      → (window : Window events min_breaches)
      → Outcome events min_breaches window
          (detect_sustained_high t events sensor_id window_start window_end min_breaches)
  unfolding detect_sustained_high get
  detect_sustained_high_lem laws events sensor_id window_start window_end min_breaches one (few h) =
      rw h refl
  detect_sustained_high_lem laws events sensor_id window_start window_end min_breaches one
        (enough x xs times h hc ht) =
      let breaches = breaches_of events in
      let found =
        latest_lem t breaches times (traverse-Each (breach_sort_key t) breaches times ht)
          (omega arith) in
      let highest = best_from n.lt (λ v. v) x xs in
      let many : ltb (length breaches) min_breaches ≡ false = ground arith in
      record {
        alert =
            alert_of sensor_id window_start window_end (some highest) (length breaches)
              found.latest;
        latest = found.latest;
        top = highest;
        time = found.time;
        raised = rw (many, hc, found.chosen) refl;
        breach_count = refl;
        cpm = refl;
        reading = best_from-Memᴰ n.lt (λ v. v) x xs;
        highest = best_from-All n.lt (λ v. v) (lt_irrefl laws) laws.lt_trans x xs;
        latitude = refl;
        longitude = refl;
        among = found.among;
        timed = found.timed;
        newest = found.newest;
      }
