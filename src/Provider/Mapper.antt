-- ===== src/Provider/Mapper.antt =====
-- data-provider/mapper.py: the RadiationEvent of a CSV row. `hashlib.md5(…).hexdigest()` is a
-- parameter.
pub mod Events
mod Tests
use Prim.Native.String.{◌++◌}
use radiation_tracking.Prelude.{
  ℕ, String, Bool, true, false, not, ◌&&◌, ◌||◌, Option, none, some, List, [], ◌∷◌, str_eq,
  if◌then◌else◌,
}
use radiation_tracking.Python.{Number, Value, null, num, str, Fields, end, field, put, ◌>>=◌}
use radiation_tracking.Python.Text.{strip, text_lt}
use radiation_tracking.Provider.Rows.{CsvRow, csv_field, normalise_ts}

-- A text that is neither absent nor empty.
unfoldable pub nonempty : Option String → Option String
nonempty none = none
nonempty (some s) = if str_eq s "" then none else some s

-- `_to_str`
unfoldable pub to_str : Option String → Option String
unfolding nonempty
to_str none = none
to_str (some s) = nonempty (some (strip s))

-- `x or y`
abbrev pub or_text : Option String → Option String → Option String
or_text none y = y
or_text (some x) y = some x

-- `did and did != "0"`
unfoldable pub not_zero : Option String → Option String
not_zero none = none
not_zero (some did) = if str_eq did "0" then none else some did

unfoldable pub resolve_sensor_id : CsvRow → Option String
unfolding to_str not_zero
resolve_sensor_id row =
    or_text (to_str (csv_field row "sensor_id")) (not_zero (to_str (csv_field row "device_id")))

-- `_normalise_timestamp`
unfoldable pub normalise_timestamp : Option String → Option String
normalise_timestamp none = none
normalise_timestamp (some raw) = if str_eq (strip raw) "" then none else some (normalise_ts raw)

-- `_resolve_timestamp` with no fallback, and with one.
unfoldable pub resolve_timestamp : CsvRow → String → Option String
unfolding normalise_timestamp nonempty
resolve_timestamp row col = nonempty (normalise_timestamp (csv_field row col))

unfoldable pub resolve_timestamp_or : CsvRow → String → String → Option String
unfolding resolve_timestamp
resolve_timestamp_or row col fallback =
    or_text (resolve_timestamp row col) (normalise_timestamp (csv_field row fallback))

-- `raw_unit if raw_unit in _VALID_UNITS else None`
unfoldable pub valid_unit : Option String → Option String
valid_unit none = none
valid_unit (some unit) =
    if str_eq unit "cpm" || str_eq unit "mSv/h" || str_eq unit "uSv/h" then some unit else none

-- `sorted(row.items())`, whose keys are distinct.
unfoldable pub insert_item : String × Option String → CsvRow → CsvRow
insert_item (k, v) [] = (k, v) ∷ []
insert_item (k, v) ((j, w) ∷ row) =
    let rest = insert_item (k, v) row in
    if text_lt j k then (j, w) ∷ rest else (k, v) ∷ (j, w) ∷ row

unfoldable pub sort_items : CsvRow → CsvRow
unfolding insert_item
sort_items [] = []
sort_items (item ∷ row) = insert_item item (sort_items row)

abbrev pub str_of : Option String → String
str_of none = "None"
str_of (some s) = s

-- `",".join(f"{k}={v}" for k, v in items)`
unfoldable pub join_items : CsvRow → String
join_items [] = ""
join_items ((k, v) ∷ []) = k ++ ("=" ++ str_of v)
join_items ((k, v) ∷ item ∷ row) = k ++ ("=" ++ (str_of v ++ ("," ++ join_items (item ∷ row))))

unfoldable pub row_md5 : (String → String) → CsvRow → String
unfolding sort_items join_items
row_md5 hexdigest row = hexdigest (join_items (sort_items row))

module _ {F : Type 0} where
  abbrev pub text_value : Option String → Value F
  text_value none = null
  text_value (some s) = str s

  abbrev pub number_value : Option F → Value F
  number_value none = null
  number_value (some x) = num x

  unfoldable pub with_unit : Option String → Fields F → Fields F
  with_unit none event = event
  with_unit (some unit) event = put event "unit" (str unit)

module _ {F : Type 0} ⦃n : Number F⦄ where
  -- `_to_float`
  unfoldable pub cell_to_float : Option String → Option F
  cell_to_float none = none
  cell_to_float (some s) = if str_eq (strip s) "" then none else n.parse s

  -- `_in_range(value, -bound, bound)`
  unfoldable pub within_bound : F → ℕ → Bool
  within_bound x bound = n.le (n.neg (n.of_ℕ bound)) x && n.le x (n.of_ℕ bound)

  -- The reading, where the unit is known.
  unfoldable pub cpm_of : CsvRow → Option String → Option F
  unfolding cell_to_float
  cpm_of row none = none
  cpm_of row (some unit) = cell_to_float (csv_field row "value")

  module _ (hexdigest : String → String) where
    -- The event, from what the guards have found.
    unfoldable pub event_of : CsvRow → String → String → F → F → Fields F
    unfolding cell_to_float to_str with_unit cpm_of valid_unit row_md5 resolve_timestamp_or
    event_of row sensor_id captured_at latitude longitude =
        let unit = valid_unit (to_str (csv_field row "unit")) in
        with_unit unit (
          field "sensor_id" (str sensor_id) (
            field "captured_at" (str captured_at) (
              field "uploaded_at"
                (text_value (resolve_timestamp_or row "uploaded_at" "captured_at"))
                (field "latitude" (num latitude) (
                  field "longitude" (num longitude) (
                    field "cpm" (number_value (cpm_of row unit)) (
                      field "classification" null (
                        field "location_name" (text_value (to_str (csv_field row "location_name")))
                          (field "height" (number_value (cell_to_float (csv_field row "height"))) (
                            field "surface" (text_value (to_str (csv_field row "surface"))) (
                              field "loader_id"
                                (text_value (to_str (csv_field row "measurement_import_id")))
                                (field "md5sum"
                                  (text_value (
                                    or_text (to_str (csv_field row "md5sum"))
                                      (some (row_md5 hexdigest row))))
                                  end))))))))))))

    -- The guards on the coordinates.
    unfoldable pub locate : CsvRow → String → String → Option F → Option F → Option (Fields F)
    unfolding event_of within_bound
    locate row sensor_id captured_at (some latitude) (some longitude) =
        if not (within_bound latitude 90) || not (within_bound longitude 180)
        then none
        else some (event_of row sensor_id captured_at latitude longitude)
    locate row sensor_id captured_at _ _ = none

    -- The guards on the sensor and the time.
    unfoldable pub identify : CsvRow → Option String → Option String → Option (Fields F)
    unfolding locate cell_to_float
    identify row (some sensor_id) (some captured_at) =
        locate row sensor_id captured_at (cell_to_float (csv_field row "latitude"))
          (cell_to_float (csv_field row "longitude"))
    identify row _ _ = none

    -- None where the row is discarded.
    unfoldable pub row_to_event : CsvRow → Option (Fields F)
    unfolding identify resolve_sensor_id resolve_timestamp
    row_to_event row = identify row (resolve_sensor_id row) (resolve_timestamp row "captured_at")
