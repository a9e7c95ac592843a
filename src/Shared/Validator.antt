-- ===== src/Shared/Validator.antt =====
-- shared/validator/schema_validator.py. A parameter says whether the JSON Schema library finds a
-- violation of schemas/radiation_event.json.
use radiation_tracking.Prelude.{
  String, Bool, true, false, not, ◌&&◌, Option, none, some, List, [], ◌∷◌, str_eq, if◌then◌else◌,
}
use radiation_tracking.Python.{
  Number, Value, null, str, obj, Fields, get, Result, ok, raise, ◌>>=◌, type_error, value_error,
  to_float, is_none,
}

-- What `discard_reason` says.
pub data Reason : Type 0 where
  not_a_dict : Reason
  missing_field : String → Reason
  cpm_not_numeric : Reason
  cpm_out_of_range : Reason
  schema_violation : Reason

pub record ValidationResult : Type 0 where
  pub is_valid : Bool
  pub discard_reason : Option Reason

abbrev pub valid_result : ValidationResult
valid_result = record { is_valid = true; discard_reason = none }

abbrev pub rejected : Reason → ValidationResult
rejected reason = record { is_valid = false; discard_reason = some reason }

abbrev pub required_fields : List String
required_fields = "sensor_id" ∷ "captured_at" ∷ "uploaded_at" ∷ "latitude" ∷ "longitude" ∷ []

module _ {F : Type 0} where
  -- `value is None or value == ""`
  unfoldable pub is_absent : Value F → Bool
  is_absent null = true
  is_absent (str s) = str_eq s ""
  is_absent _ = false

  -- The first required field that is absent.
  unfoldable pub first_missing : Fields F → List String → Option String
  unfolding is_absent
  first_missing event [] = none
  first_missing event (name ∷ names) =
      if is_absent (get event name) then some name else first_missing event names

module _ {F : Type 0} ⦃n : Number F⦄ (violates : Value F → Bool) where
  unfoldable pub check_schema : Value F → ValidationResult
  check_schema event = if violates event then rejected schema_violation else valid_result

  -- The range that is physically plausible.
  unfoldable pub check_plausible : Value F → F → ValidationResult
  unfolding check_schema
  check_plausible event cpm =
      if not (n.le n.zero cpm && n.le cpm (n.of_ℕ 1000000))
      then rejected cpm_out_of_range
      else check_schema event

  -- `float(cpm)`, whose TypeError and ValueError are caught, and the checks that follow.
  unfoldable pub check_range : Value F → Result F → Result ValidationResult
  unfolding check_plausible
  check_range event (raise type_error) = ok (rejected cpm_not_numeric)
  check_range event (raise value_error) = ok (rejected cpm_not_numeric)
  check_range event (raise e) = raise e
  check_range event (ok cpm) = ok (check_plausible event cpm)

  unfoldable pub check_cpm : Fields F → Result ValidationResult
  unfolding check_range check_schema to_float
  check_cpm event =
      if is_none (get event "cpm")
      then ok (check_schema (obj event))
      else check_range (obj event) (to_float (get event "cpm"))

  unfoldable pub check_fields : Fields F → Option String → Result ValidationResult
  unfolding check_cpm
  check_fields event (some name) = ok (rejected (missing_field name))
  check_fields event none = check_cpm event

  unfoldable pub validate : Value F → Result ValidationResult
  unfolding check_fields first_missing
  validate (obj event) = check_fields event (first_missing event required_fields)
  validate _ = ok (rejected not_a_dict)

  unfoldable pub should_discard : Value F → Result (Bool × Option Reason)
  unfolding validate
  should_discard event = do
    result ← validate event
    ok (if not result.is_valid then (true, result.discard_reason) else (false, none))
