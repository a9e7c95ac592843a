-- ===== src/Flink/AlertDetection.antt =====
-- flink-jobs/operators/alert_detection.py, and alert_window.py, which supplies the bounds of a window.
pub mod Sustained
use radiation_tracking.Prelude.{
  ℕ, String, Bool, true, false, Option, none, some, List, [], ◌∷◌, length, filter, ltb,
  if◌then◌else◌,
}
use radiation_tracking.Prelude.Int.{ℤ, pos, ltb_ℤ}
use radiation_tracking.Python.{
  Number, Result, ok, raise, ◌>>=◌, traverse, tolerate, Datetime, Value, null, str, num, obj,
  Fields, field, end, get,
}
use radiation_tracking.Python.Extrema.{best}
use radiation_tracking.Flink.Timestamps.{captured_at_millis, or_epoch}
use radiation_tracking.Flink.GeoAggregation.{has_label, cpm_values, max_or_none}
use radiation_tracking.Flink.RollingStats.{optional}

module _ {F D : Type 0} (t : Datetime D) where
  -- _breach_sort_key
  unfoldable pub breach_sort_key : Fields F → Result ℤ
  breach_sort_key event = or_epoch (tolerate (captured_at_millis t (obj event)))

  -- The events with their sort keys, as `max` computes them.
  unfoldable pub keyed : Fields F → Result (ℤ × Fields F)
  keyed event = do k ← breach_sort_key event; ok (k, event)

  -- `max(breaches, key=_breach_sort_key)`
  unfoldable pub latest_breach : List (Fields F) → Result (Fields F)
  unfolding keyed
  latest_breach breaches = do
    pairs ← traverse keyed breaches
    latest ← best ltb_ℤ (λ p. p.0) pairs
    ok latest.1

module _ {F : Type 0} ⦃n : Number F⦄ where
  abbrev pub alert_of : String → String → String → Option F → ℕ → Fields F → Fields F
  alert_of sensor_id window_start window_end cpm breach_count latest =
      field "sensor_id" (str sensor_id) (
        field "reason" (str "sustained-high") (
          field "window_start" (str window_start) (
            field "window_end" (str window_end) (
              field "cpm" (optional cpm) (
                field "breach_count" (num (n.of_ℕ breach_count)) (
                  field "classification" (str "DANGER") (
                    field "latitude" (get latest "latitude") (
                      field "longitude" (get latest "longitude")
                        (field "triggered_at" (get latest "captured_at") end)))))))))

  -- The events with the classification DANGER.
  abbrev pub breaches_of : List (Fields F) → List (Fields F)
  breaches_of events = filter (has_label "DANGER") events

abbrev pub yielded : {F : Type 0} → Option (Fields F) → List (Fields F)
yielded none = []
yielded (some alert) = alert ∷ []

module _ {F D : Type 0} ⦃n : Number F⦄ (t : Datetime D) where
  unfoldable pub detect_sustained_high :
      List (Fields F) → String → String → String → ℕ → Result (Option (Fields F))
  detect_sustained_high events sensor_id window_start window_end min_breaches =
      let breaches = breaches_of events in
      if ltb (length breaches) min_breaches then ok none else do
        cpms ← cpm_values breaches
        latest ← latest_breach t breaches
        ok (
            some (
              alert_of sensor_id window_start window_end (max_or_none cpms) (length breaches)
                latest))

  -- SustainedHighWindowFunction.process: the bounds of the window are epoch milliseconds, and
  -- `to_iso` is _millis_to_iso.
  unfoldable pub process_window :
      (ℤ → String) → ℕ → String → ℤ → ℤ → List (Fields F) → Result (List (Fields F))
  process_window to_iso min_breaches key start stop elements = do
    alert ← detect_sustained_high elements key (to_iso start) (to_iso stop) min_breaches
    ok (yielded alert)
