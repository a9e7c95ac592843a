-- ===== src/Flink/Model/Poison.antt =====
-- flink-jobs/radiation_tracking_job.py, flink-jobs/operators/watermark.py and the configuration of
-- flink-jobs/model/config_update.py: which records and messages fail the task. The handlers catch
-- KeyError, ValueError and TypeError, and so not AttributeError.
use radiation_tracking.Prelude.{String, ◌≡◌, Bool, true, false, arith}
use radiation_tracking.Python.{
  Number, Result, ok, raise, attribute_error, tolerate, Datetime, Value, str, item, attribute_get,
  is_dict,
}
use radiation_tracking.Flink.Timestamps.{parse_timestamp, captured_at_millis, extract_timestamp}
use radiation_tracking.Flink.Model.{
  event_from_dict, parse_event, parse_record, config_from_dict, deserialize_config,
}

abbrev pub is_text : {F : Type 0} → Value F → Bool
is_text (str s) = true
is_text _ = false

module _ {F D : Type 0} ⦃n : Number F⦄ (t : Datetime D) (loads : String → Result (Value F)) where
  not_text : (v : Value F) → is_text v ≡ false → parse_timestamp ⦃t = t⦄ v ≡ raise attribute_error
  unfolding parse_timestamp
  not_text v h = ground arith

  -- A raw record with a sensor_id and a captured_at that is no text, a number or null for
  -- instance, fails the task that parses it with AttributeError, and the timestamp assigner at
  -- the source before it.
  pub parse_record_fails :
      (raw : String) (d s v : Value F)
      → loads raw ≡ ok d
      → item d "sensor_id" ≡ ok s
      → item d "captured_at" ≡ ok v
      → is_text v ≡ false
      → (parse_record t loads raw ≡ raise attribute_error)
        × (extract_timestamp t loads raw ≡ raise attribute_error)
  unfolding parse_record parse_event event_from_dict extract_timestamp captured_at_millis tolerate
  parse_record_fails raw d s v l hs hv h = (rw (l, hs, hv, not_text v h), rw (l, hv, not_text v h))

  -- A config.updates message that is JSON but no object raises AttributeError, which neither the
  -- classifier nor the region filter catches.
  pub config_raises :
      (raw : String) (d : Value F)
      → loads raw ≡ ok d
      → is_dict d ≡ false
      → deserialize_config t loads raw ≡ raise attribute_error
  unfolding deserialize_config config_from_dict attribute_get
  config_raises raw d l h = rw l (ground arith)
