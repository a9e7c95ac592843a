-- ===== src/Flink/Dedup/Lifetime.antt =====
-- flink-jobs/operators/sensor_dedup.py: one reading per key and lifetime of its entry.
use radiation_tracking.Prelude.{
  String, ◌≡◌, refl, Bool, true, false, not, List, [], ◌∷◌, take, filter, arith, eq_iff, str_eq,
  if◌then◌else◌,
}
use radiation_tracking.Python.{Number, Value, Fields}
use radiation_tracking.Flink.Dedup.{
  contains, dedup_key, process_element, Step, element, expire, run,
}

contains-filter :
    (k key : String) (seen : List String)
    → str_eq key k ≡ false
    → contains k (filter (λ x. not (str_eq x key)) seen) ≡ contains k seen
contains-filter k key [] h = refl
contains-filter k key (x ∷ xs) h =
    ground (arith, eq_iff x key, eq_iff key k, eq_iff x k, h, contains-filter k key xs h)

module _ {F : Type 0} ⦃n : Number F⦄ (text : Value F → String) where
  -- The readings with the key `k`.
  abbrev pub readings : String → List (Step text) → List (Fields F)
  readings k [] = []
  readings k (element event ∷ rest) =
      let more = readings k rest in if str_eq (dedup_key text event) k then event ∷ more else more
  readings k (expire key ∷ rest) = readings k rest

  -- The entry of `k` does not expire.
  abbrev pub lasts : String → List (Step text) → Bool
  lasts k [] = true
  lasts k (element event ∷ rest) = lasts k rest
  lasts k (expire key ∷ rest) = if str_eq key k then false else lasts k rest

  abbrev pub has_key : String → Fields F → Bool
  has_key k event = str_eq (dedup_key text event) k

  from :
      (k : String) (seen : List String) (steps : List (Step text))
      → lasts k steps ≡ true
      → filter (has_key k) (run text seen steps)
        ≡ (if contains k seen then [] else take 1 (readings k steps))
  unfolding run process_element
  from k seen [] h = ground arith
  from k seen (element event ∷ rest) h =
      let key = dedup_key text event in
      ground (arith, eq_iff key k, from k seen rest h, from k (key ∷ seen) rest h)
  from k seen (expire key ∷ rest) h = ground (
    arith,
    eq_iff key k,
    contains-filter k key seen,
    from k (filter (λ x. not (str_eq x key)) seen) rest,
  )

  -- Over any readings and expiries from the empty state, of the readings with a key whose entry does
  -- not expire the operator yields exactly the first.
  pub run-readings :
      (k : String) (steps : List (Step text))
      → lasts k steps ≡ true
      → filter (has_key k) (run text [] steps) ≡ take 1 (readings k steps)
  run-readings k steps h = from k [] steps h
