-- ===== src/Flink/RollingStats.antt =====
-- flink-jobs/operators/rolling_stats.py: each aggregated blob scored against the averages before it.
pub mod History
use radiation_tracking.Prelude.{
  ℕ, String, Bool, true, false, Option, none, some, List, [], ◌∷◌, ◌++◌, length, ltb, if◌then◌else◌,
}
use radiation_tracking.Python.{
  Number, Result, ok, raise, ◌>>=◌, Value, null, bool, num, Fields, get, put, is_none, to_float,
}
use radiation_tracking.Flink.Series.{SeriesJson, push, stored}

module _ {F : Type 0} ⦃n : Number F⦄ where
  abbrev pub sum_from : F → List F → F
  sum_from total [] = total
  sum_from total (x ∷ xs) = sum_from (n.add total x) xs

  -- sum(xs)
  abbrev pub sum : List F → F
  sum xs = sum_from n.zero xs

  abbrev pub mean_of : List F → F
  mean_of xs = n.div (sum xs) (n.of_ℕ (length xs))

  unfoldable pub rolling_average : List F → Option F
  rolling_average [] = none
  rolling_average (x ∷ xs) = some (n.round (mean_of (x ∷ xs)) 4)

  -- [(x - mean) ** 2 for x in series]
  abbrev pub squares : F → List F → List F
  squares mean [] = []
  squares mean (x ∷ xs) = n.mul (n.sub x mean) (n.sub x mean) ∷ squares mean xs

  unfoldable pub zscore : List F → F → Option F
  zscore series value =
      let mean = mean_of series in
      let variance = n.div (sum (squares mean series)) (n.of_ℕ (length series)) in
      let std = n.sqrt variance in
      if ltb (length series) 2
      then none
      else if n.beq std n.zero
      then none
      else some (n.round (n.div (n.sub value mean) std) 4)

  abbrev pub abs : F → F
  abs z = if n.lt z n.zero then n.neg z else z

  unfoldable pub flag_anomaly : Option F → F → Bool
  flag_anomaly none threshold = false
  flag_anomaly (some z) threshold = n.le threshold (abs z)

  abbrev pub optional : Option F → Value F
  optional none = null
  optional (some x) = num x

  -- `{**blob, "rolling_cpm_avg": ..., "cpm_zscore": ..., "anomaly": ...}`
  abbrev pub with_stats : Fields F → Option F → Option F → Bool → Fields F
  with_stats blob rolling z anomaly =
      put (put (put blob "rolling_cpm_avg" (optional rolling)) "cpm_zscore" (optional z)) "anomaly"
        (bool anomaly)

  unfoldable pub enrich_blob : Fields F → List F → F → Result (Fields F)
  enrich_blob blob baseline threshold =
      if is_none (get blob "cpm_avg") then ok (with_stats blob none none false) else do
        cpm_avg ← to_float (get blob "cpm_avg")
        let z = zscore baseline cpm_avg
        ok (
            with_stats blob (rolling_average (baseline ++ cpm_avg ∷ [])) z
              (flag_anomaly z threshold))

  module _ ⦃json : SeriesJson F⦄ (window_count : ℕ) (threshold : F) where
    -- The series that process_element stores after it has yielded.
    unfoldable pub update : Option String → Fields F → Result (Option String)
    update state blob = if is_none (get blob "cpm_avg") then ok state else do
      cpm_avg ← to_float (get blob "cpm_avg")
      ok (some (json.dumps (push (stored state) cpm_avg window_count)))

    -- process_element: the stored series, and the blob that it yields.
    unfoldable pub process_element : Option String → Fields F → Result (Option String × Fields F)
    unfolding update
    process_element state blob = do
      enriched ← enrich_blob blob (stored state) threshold
      next ← update state blob
      ok (next, enriched)

    -- What the operator yields for the blobs of one cell.
    unfoldable pub run : Option String → List (Fields F) → Result (List (Fields F))
    run state [] = ok []
    run state (blob ∷ rest) = do
      next ← process_element state blob
      more ← run next.0 rest
      ok (next.1 ∷ more)
