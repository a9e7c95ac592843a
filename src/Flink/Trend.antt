-- ===== src/Flink/Trend.antt =====
-- flink-jobs/operators/trend_detector.py: an alert for a cell whose average rises over windows.
pub mod History
use radiation_tracking.Prelude.{
  ℕ, String, Bool, true, false, ◌&&◌, ◌||◌, Option, none, some, List, [], ◌∷◌, ◌++◌, length,
  slice_last, ltb, if◌then◌else◌,
}
use radiation_tracking.Python.{
  Number, Result, ok, raise, ◌>>=◌, Value, null, num, str, arr, obj, Fields, end, field, get, index,
  is_none, to_float,
}
use radiation_tracking.Flink.Series.{SeriesJson, push, stored, numbers}

module _ {F : Type 0} ⦃n : Number F⦄ where
  abbrev pub rises_from : F → List F → Bool
  rises_from previous [] = true
  rises_from previous (x ∷ xs) = n.lt previous x && rises_from x xs

  -- all(window[i] > window[i - 1] for i in range(1, len(window)))
  abbrev pub strictly_rising : List F → Bool
  strictly_rising [] = true
  strictly_rising (x ∷ xs) = rises_from x xs

  abbrev pub last_of : F → List F → F
  last_of x [] = x
  last_of x (y ∷ ys) = last_of y ys

  -- xs[-1] - xs[0]; of an empty list 0.0, as `delta` has it
  abbrev pub rise : List F → F
  rise [] = n.zero
  rise (x ∷ xs) = n.sub (last_of x xs) x

  unfoldable pub is_rising : List F → ℕ → F → Bool
  is_rising cpm_series min_windows min_delta =
      let window = slice_last min_windows cpm_series in
      if ltb min_windows 2 || ltb (length cpm_series) min_windows
      then false
      else strictly_rising window && n.le min_delta (rise window)

  unfoldable pub build_trend_alert : Value F → List F → Fields F → Fields F
  build_trend_alert geohash cpm_series latest_blob = field "sensor_id" geohash (
      field "reason" (str "rising-trend") (
        field "window_start" (get latest_blob "window_start") (
          field "window_end" (get latest_blob "window_end") (
            field "cpm" (get latest_blob "cpm_max") (
              field "breach_count" (num (n.of_ℕ (length cpm_series))) (
                field "triggered_at" (get latest_blob "window_end") (
                  field "geohash" geohash (
                    field "latitude" (get latest_blob "centroid_latitude") (
                      field "longitude" (get latest_blob "centroid_longitude") (
                        field "trend"
                          (obj (
                            field "window_count" (num (n.of_ℕ (length cpm_series))) (
                              field "cpm_series" (arr (numbers cpm_series))
                                (field "delta" (num (n.round (rise cpm_series) 4)) end))))
                          end))))))))))

  module _ ⦃json : SeriesJson F⦄ (min_windows : ℕ) (min_delta : F) where
    -- The branch of a blob with an average: an alert and a cleared series, or the longer series.
    unfoldable pub detect : List F → Fields F → Result (Option String × List (Fields F))
    detect series blob =
        if is_rising series min_windows min_delta
        then (do
          geohash ← index blob "geohash"
          ok (none, build_trend_alert geohash series blob ∷ []))
        else ok (some (json.dumps series), [])

    -- process_element: the stored series, and the alerts that it yields.
    unfoldable pub process_element :
        Option String → Fields F → Result (Option String × List (Fields F))
    unfolding detect
    process_element state blob = if is_none (get blob "cpm_avg") then ok (state, []) else do
      let series = stored state
      cpm_avg ← to_float (get blob "cpm_avg")
      detect (push series cpm_avg min_windows) blob

    -- What the operator yields for the blobs of one cell.
    unfoldable pub run : Option String → List (Fields F) → Result (List (Fields F))
    run state [] = ok []
    run state (blob ∷ rest) = do
      next ← process_element state blob
      more ← run next.0 rest
      ok (next.1 ++ more)
