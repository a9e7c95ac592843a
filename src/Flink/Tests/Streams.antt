-- ===== src/Flink/Tests/Streams.antt =====
-- The keyed operators on concrete streams.
use radiation_tracking.Prelude.{
  String, ◌≡◌, refl, none, List, [], ◌∷◌, take, filter, All, Sublistᴰ, arith, true,
}
use radiation_tracking.Prelude.Int.{ℤ, pos}
use radiation_tracking.Python.{
  ok, traverse, Value, null, bool, num, str, Fields, field, end, get, put, index, to_float,
  or_raise,
}
use radiation_tracking.Python.Text.{strip, search_fraction}
use radiation_tracking.Flink.Timestamps.{parse_timestamp, to_epoch_millis, pad_fraction}
use radiation_tracking.Flink.Series.{push, stored}
use radiation_tracking.Flink.Tests.Samples.{
  clock, read_integers, series_json, series_json-RoundTrip,
}
use radiation_tracking.Flink.Dedup
use radiation_tracking.Flink.Dedup.{element, expire}
use radiation_tracking.Flink.Dedup.Lifetime.{readings, has_key, run-readings}
use radiation_tracking.Flink.Cooldown
use radiation_tracking.Flink.Cooldown.{alert_window_end_millis}
use radiation_tracking.Flink.Cooldown.Spacing.{Spaced, covered, run-Spaced}
use radiation_tracking.Flink.Trend
use radiation_tracking.Flink.Trend.History.{alerts, run-alerts}
use radiation_tracking.Flink.RollingStats
use radiation_tracking.Flink.RollingStats.{enrich_blob, rolling_average, zscore, flag_anomaly}
use radiation_tracking.Flink.RollingStats.History.{scored, run-scored}

abbrev text : Value ℤ → String
text (str s) = s
text _ = "None"

abbrev hashed_reading : String → Fields ℤ
hashed_reading md5sum = field "md5sum" (str md5sum) end

run-readings_example :
    filter (has_key text "a") (
      Dedup.run text [] (
        element (hashed_reading "a")
        ∷ expire "b"
        ∷ element (hashed_reading "b")
        ∷ element (hashed_reading "a")
        ∷ []))
    ≡ take 1 (
        readings text "a" (
          element (hashed_reading "a")
          ∷ expire "b"
          ∷ element (hashed_reading "b")
          ∷ element (hashed_reading "a")
          ∷ []))
run-readings_example =
    run-readings text "a"
      (element (hashed_reading "a")
        ∷ expire "b"
        ∷ element (hashed_reading "b")
        ∷ element (hashed_reading "a")
        ∷ [])
      refl

abbrev candidate : String → Fields ℤ
candidate window_end = field "window_end" (str window_end) end

abbrev candidates : List (Fields ℤ)
candidates = candidate "T00" ∷ candidate "T05" ∷ candidate "T10" ∷ []

dated :
    traverse (alert_window_end_millis clock) candidates ≡ ok (pos 0 ∷ pos 300000 ∷ pos 600000 ∷ [])
unfolding traverse alert_window_end_millis index parse_timestamp to_epoch_millis pad_fraction
    search_fraction strip or_raise
dated = refl

run-Spaced_example :
    (emitted : List (Fields ℤ)) × (emitted_ends : List ℤ) × (Cooldown.run clock 600 none candidates
      ≡ ok emitted)
    × Sublistᴰ emitted candidates
    × (traverse (alert_window_end_millis clock) emitted ≡ ok emitted_ends)
    × Spaced 600 emitted_ends
    × All (λ e. covered 600 emitted_ends e ≡ true) (pos 0 ∷ pos 300000 ∷ pos 600000 ∷ [])
run-Spaced_example =
    run-Spaced clock 600 candidates (pos 0 ∷ pos 300000 ∷ pos 600000 ∷ []) dated (omega arith)

abbrev blob : ℤ → Fields ℤ
blob cpm_avg = field "geohash" (str "ud9wr") (field "cpm_avg" (num cpm_avg) end)

abbrev blobs : List (Fields ℤ)
blobs =
    blob (pos 10) ∷ blob (pos 14) ∷ field "cpm_avg" null end ∷ blob (pos 20) ∷ blob (pos 21) ∷ []

run-alerts_example : Trend.run 3 (pos 5) none blobs ≡ alerts 3 (pos 5) [] blobs
run-alerts_example = run-alerts 3 (pos 5) series_json-RoundTrip blobs (omega arith)

climb :
    Trend.run 3 (pos 5) none blobs
    ≡ ok
        (Trend.build_trend_alert (str "ud9wr") (pos 10 ∷ pos 14 ∷ pos 20 ∷ []) (blob (pos 20)) ∷ [])
unfolding Trend.run Trend.process_element Trend.detect Trend.is_rising get index to_float stored
    push
climb = refl

run-scored_example : RollingStats.run 2 (pos 3) none blobs ≡ scored 2 (pos 3) [] blobs
run-scored_example = run-scored 2 (pos 3) series_json-RoundTrip blobs (omega arith)

abbrev spike : Fields ℤ
spike = field "geohash" (str "ud9wr") (
    field "cpm_avg" (num (pos 20)) (
      field "rolling_cpm_avg" (num (pos 14))
        (field "cpm_zscore" (num (pos 4)) (field "anomaly" (bool true) end))))

enriched : enrich_blob (blob (pos 20)) (pos 10 ∷ pos 14 ∷ []) (pos 3) ≡ ok spike
unfolding enrich_blob get to_float put rolling_average zscore flag_anomaly
enriched = refl
