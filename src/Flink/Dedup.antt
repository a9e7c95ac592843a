-- ===== src/Flink/Dedup.antt =====
-- flink-jobs/operators/sensor_dedup.py: the readings of one sensor whose key was seen are dropped.
-- `text` is `str` of a value. Flink lets an entry of the state go when its time to live is over,
-- which is a step of its own; no order between expiries and readings is assumed.
pub mod Lifetime
use Prim.Native.String
use radiation_tracking.Prelude.{
  String, Bool, true, false, ◌||◌, List, [], ◌∷◌, ◌++◌, not, filter, str_eq, if◌then◌else◌,
}
use radiation_tracking.Python.{Number, Value, Fields, get, truthy}

-- `k in keys`
abbrev pub contains : String → List String → Bool
contains k [] = false
contains k (x ∷ xs) = str_eq x k || contains k xs

module _ {F : Type 0} ⦃n : Number F⦄ (text : Value F → String) where
  unfoldable pub dedup_key : Fields F → String
  dedup_key event =
      let md5sum = get event "md5sum" in
      if truthy md5sum
      then text md5sum
      else String.◌++◌ "captured_at:" (text (get event "captured_at"))

  -- process_element: the keys seen, and the events that it yields.
  unfoldable pub process_element : List String → Fields F → List String × List (Fields F)
  process_element seen event =
      let key = dedup_key event in
      if contains key seen then (seen, []) else (key ∷ seen, event ∷ [])

  pub data Step : Type 0 where
    element : Fields F → Step
    expire : String → Step

  -- What the operator yields over its steps.
  unfoldable pub run : List String → List Step → List (Fields F)
  run seen [] = []
  run seen (element event ∷ rest) =
      let next = process_element seen event in next.1 ++ run next.0 rest
  run seen (expire key ∷ rest) = run (filter (λ k. not (str_eq k key)) seen) rest
