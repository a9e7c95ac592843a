-- ===== src/Flink/Classifier.antt =====
-- flink-jobs/operators/classification.py and classifier.py, and the two filters before them:
-- null_cpm_filter.py and cpm_range_filter.py. The broadcast state is passed explicitly.
pub mod Broadcast
use radiation_tracking.Prelude.{
  ℕ, String, ◌≡◌, Bool, true, false, not, ◌&&◌, Option, none, some, List, [], ◌∷◌, if◌then◌else◌,
}
use radiation_tracking.Python.{
  Number, Result, ok, raise, key_error, type_error, value_error, attribute_error, json_decode_error,
  unicode_decode_error, ◌>>=◌, tolerate, or_raise, Datetime, Value, null, str, num, Fields, get,
  put, is_none, to_float,
}
use radiation_tracking.Flink.Model.{ConfigUpdate, deserialize_config}

pub data Class : Type 0 where
  safe warn danger : Class

-- `str` of a number, as the thresholds are stored.
pub record Show (F : Type 0) : Type 0 where
  pub show : F → String

abbrev pub label : Class → String
label safe = "SAFE"
label warn = "WARN"
label danger = "DANGER"

module _ {F : Type 0} ⦃n : Number F⦄ where
  unfoldable pub default_warn_threshold : F
  default_warn_threshold = n.of_ℕ 100

  unfoldable pub default_danger_threshold : F
  default_danger_threshold = n.of_ℕ 1000

  -- `classify` of a reading that is a number.
  unfoldable pub classify_cpm : F → F → F → Class
  classify_cpm cpm warn_threshold danger_threshold =
      if n.le danger_threshold cpm then danger else if n.le warn_threshold cpm then warn else safe

  unfoldable pub classify : Value F → F → F → Result (Option Class)
  unfolding classify_cpm
  classify cpm warn_threshold danger_threshold =
      if is_none cpm
      then ok none
      else do x ← to_float cpm; ok (some (classify_cpm x warn_threshold danger_threshold))

  abbrev pub label_value : Option Class → Value F
  label_value none = null
  label_value (some c) = str (label c)

  -- NullCPMFilter.filter
  unfoldable pub null_cpm_filter : Fields F → Bool
  null_cpm_filter event = not (is_none (get event "cpm"))

  in_range : Result F → Result Bool
  in_range (ok x) = ok (n.le (n.of_ℕ 0) x && n.le x (n.of_ℕ 1000000))
  in_range (raise type_error) = ok false
  in_range (raise value_error) = ok false
  in_range (raise e) = raise e

  -- CPMRangeFilter.filter, which catches TypeError and ValueError.
  unfoldable pub cpm_range_filter : Fields F → Result Bool
  unfolding in_range
  cpm_range_filter event =
      let cpm = get event "cpm" in if is_none cpm then ok true else in_range (to_float cpm)

-- The broadcast state: the texts under "warn" and "danger".
pub record Thresholds : Type 0 where
  pub warn_text : Option String
  pub danger_text : Option String

abbrev pub no_thresholds : Thresholds
no_thresholds = record { warn_text = none; danger_text = none }

module _ {F : Type 0} ⦃n : Number F⦄ where
  -- `float(state.get(key)) if state.contains(key) else default`
  unfoldable pub threshold : Option String → F → Result F
  threshold none default = ok default
  threshold (some text) default = or_raise value_error (n.parse text)

  -- process_element
  unfoldable pub classify_event : Thresholds → Fields F → Result (Fields F)
  classify_event state event = do
    warn_threshold ← threshold state.warn_text default_warn_threshold
    danger_threshold ← threshold state.danger_text default_danger_threshold
    class ← classify (get event "cpm") warn_threshold danger_threshold
    ok (put event "classification" (label_value class))

module _ {F D : Type 0} ⦃n : Number F⦄ ⦃s : Show F⦄ (t : Datetime D)
    (loads : String → Result (Value F)) where
  store : Thresholds → Result (Option (ConfigUpdate F D)) → Result Thresholds
  store state (ok none) = ok state
  store state (ok (some config)) = ok (record {
    warn_text = some (s.show config.cpm_warn_threshold);
    danger_text = some (s.show config.cpm_danger_threshold);
  })
  store state (raise x) = raise x

  -- process_broadcast_element
  unfoldable pub update_thresholds : Thresholds → String → Result Thresholds
  unfolding store
  update_thresholds state message = store state (tolerate (deserialize_config t loads message))
