-- ===== src/Flink/Cooldown.antt =====
-- flink-jobs/operators/alert_dedup.py: at most one alert of a sensor per cooldown, by event time.
pub mod Spacing
use radiation_tracking.Prelude.{
  ℕ, ◌*◌, Bool, Option, none, some, List, [], ◌∷◌, ◌++◌, if◌then◌else◌,
}
use radiation_tracking.Prelude.Int.{ℤ, pos, ◌-ℤ◌, ltb_ℤ}
use radiation_tracking.Python.{Result, ok, raise, ◌>>=◌, Datetime, Value, Fields, index}
use radiation_tracking.Flink.Timestamps.{parse_timestamp, to_epoch_millis}

module _ {F D : Type 0} (t : Datetime D) where
  unfoldable pub alert_window_end_millis : Fields F → Result ℤ
  alert_window_end_millis alert = do
    v ← index alert "window_end"
    d ← parse_timestamp ⦃t = t⦄ v
    ok (to_epoch_millis ⦃t = t⦄ d)

unfoldable pub is_within_cooldown : ℤ → ℤ → ℕ → Bool
is_within_cooldown last_emitted_end_millis candidate_end_millis cooldown_seconds =
    ltb_ℤ (candidate_end_millis -ℤ last_emitted_end_millis) (pos (cooldown_seconds * 1000))

-- `last_end is not None and is_within_cooldown(...)`
unfoldable pub is_suppressed : ℕ → Option ℤ → ℤ → Bool
unfolding is_within_cooldown
is_suppressed cooldown_seconds none candidate_end = Bool.false
is_suppressed cooldown_seconds (some last_end) candidate_end =
    is_within_cooldown last_end candidate_end cooldown_seconds

module _ {F D : Type 0} (t : Datetime D) (cooldown_seconds : ℕ) where
  -- process_element: the end of the last alert emitted, and the alerts that it yields.
  unfoldable pub process_element : Option ℤ → Fields F → Result (Option ℤ × List (Fields F))
  process_element last_end alert = do
    candidate_end ← alert_window_end_millis t alert
    let suppressed = is_suppressed cooldown_seconds last_end candidate_end
    ok (if suppressed then (last_end, []) else (some candidate_end, alert ∷ []))

  -- What the operator yields for a stream of candidates of one sensor.
  unfoldable pub run : Option ℤ → List (Fields F) → Result (List (Fields F))
  run last_end [] = ok []
  run last_end (alert ∷ rest) = do
    next ← process_element last_end alert
    more ← run next.0 rest
    ok (next.1 ++ more)
