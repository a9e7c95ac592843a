-- ===== src/Flink/Timestamps.antt =====
-- flink-jobs/model/radiation_event.py (_parse_timestamp), flink-jobs/operators/timestamps.py and the
-- timestamp assigners of flink-jobs/operators/watermark.py. Times are epoch milliseconds.
use Prim.Native.String.{◌++◌}
use radiation_tracking.Prelude.{String, Option, none, some, if◌then◌else◌}
use radiation_tracking.Prelude.Int.{ℤ, pos}
use radiation_tracking.Python.{
  Result, ok, raise, value_error, attribute_error, ◌>>=◌, tolerate, or_raise, Datetime, Value, str,
  item,
}
use radiation_tracking.Python.Text.{strip, search_fraction, prefix}

-- The fraction padded or cut to six digits.
unfoldable pub pad_fraction : String → String
pad_fraction text = elim (search_fraction text) [
  | none ↦ text
  | some (before, digits, after) ↦ before ++ "." ++ prefix 6 (digits ++ "000000") ++ after
]

module _ {F D : Type 0} ⦃t : Datetime D⦄ where
  -- Anything but a text has no `strip`.
  unfoldable pub parse_timestamp : Value F → Result D
  unfolding or_raise
  parse_timestamp (str s) = or_raise value_error (t.fromisoformat (pad_fraction (strip s)))
  parse_timestamp _ = raise attribute_error

module _ {D : Type 0} ⦃t : Datetime D⦄ where
  unfoldable pub to_epoch_millis : D → ℤ
  to_epoch_millis d = t.timestamp_millis (if t.is_naive d then t.replace_utc d else d)

-- A caught failure counts as the epoch.
unfoldable pub or_epoch : Result (Option ℤ) → Result ℤ
or_epoch (ok none) = ok (pos 0)
or_epoch (ok (some x)) = ok x
or_epoch (raise x) = raise x

module _ {F D : Type 0} (t : Datetime D) where
  unfoldable pub captured_at_millis : Value F → Result ℤ
  captured_at_millis event = do
    v ← item event "captured_at"
    d ← parse_timestamp ⦃t = t⦄ v
    ok (to_epoch_millis ⦃t = t⦄ d)

  -- DictCapturedAtTimestampAssigner
  unfoldable pub extract_timestamp_dict : Value F → Result ℤ
  unfolding or_epoch
  extract_timestamp_dict event = or_epoch (tolerate (captured_at_millis event))

  -- CapturedAtTimestampAssigner; `json.loads` is the parameter.
  unfoldable pub extract_timestamp : (String → Result (Value F)) → String → Result ℤ
  unfolding or_epoch
  extract_timestamp loads raw = or_epoch (tolerate (loads raw >>= captured_at_millis))
