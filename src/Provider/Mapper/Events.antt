-- ===== src/Provider/Mapper/Events.antt =====
-- The events that the mapper makes, and what the shared validator says of them.
use radiation_tracking.Prelude.{
  ◌≡◌, refl, ap, ◌∙◌, subst, inl, inr, String, Bool, true, false, Option, none, some, arith, str_eq,
  Bool-cases, Option-cases,
}
use radiation_tracking.Python.{Number, Value, num, str, obj, Fields, get, get-put, ok, to_float}
use radiation_tracking.Python.Text.{strip}
use radiation_tracking.Provider.Rows.{CsvRow, csv_field}
use radiation_tracking.Provider.Mapper.{
  nonempty, to_str, not_zero, resolve_sensor_id, normalise_timestamp, resolve_timestamp,
  resolve_timestamp_or, valid_unit, number_value, with_unit, cell_to_float, within_bound, cpm_of,
  event_of, locate, identify, row_to_event,
}
use radiation_tracking.Shared.Validator.{
  ValidationResult, required_fields, first_missing, check_schema, check_plausible, check_range,
  check_cpm, check_fields, validate,
}

nonempty_text :
    (o : Option String) (s : String) → nonempty o ≡ some s → (str_eq s "" ≡ false) × (o ≡ some s)
unfolding nonempty
nonempty_text none s h = absurd (ground arith)
nonempty_text (some t) s h = elim (Bool-cases (str_eq t "")) [
  | inl e ↦ absurd (ground arith)
  | inr e ↦
      let same : t ≡ s = ground arith in (subst (λ u. str_eq u "" ≡ false) same e, ap some same)
]

to_str_text : (o : Option String) (s : String) → to_str o ≡ some s → str_eq s "" ≡ false
unfolding to_str
to_str_text none s h = absurd (ground arith)
to_str_text (some t) s h = (nonempty_text (some (strip t)) s h).0

not_zero_text : (o : Option String) (s : String) → not_zero o ≡ some s → o ≡ some s
unfolding not_zero
not_zero_text none s h = h
not_zero_text (some t) s h = ground arith

sensor_id_text : (row : CsvRow) (s : String) → resolve_sensor_id row ≡ some s → str_eq s "" ≡ false
unfolding resolve_sensor_id
sensor_id_text row s h = elim (Option-cases (to_str (csv_field row "sensor_id"))) [
  | inl e ↦ to_str_text (csv_field row "device_id") s (not_zero_text _ s (rw e at h))
  | inr (t, e) ↦ to_str_text (csv_field row "sensor_id") s (e ∙ (rw e at h))
]

captured_at_text :
    (row : CsvRow) (s : String)
    → resolve_timestamp row "captured_at" ≡ some s
    → (str_eq s "" ≡ false) × (normalise_timestamp (csv_field row "captured_at") ≡ some s)
unfolding resolve_timestamp
captured_at_text row s h = nonempty_text (normalise_timestamp (csv_field row "captured_at")) s h

-- The upload time, or else the capture time.
uploaded_at_text :
    (row : CsvRow) (s : String)
    → resolve_timestamp row "captured_at" ≡ some s
    → (t : String) × (resolve_timestamp_or row "uploaded_at" "captured_at" ≡ some t)
      × (str_eq t "" ≡ false)
unfolding resolve_timestamp_or resolve_timestamp
uploaded_at_text row s h =
    elim (Option-cases (nonempty (normalise_timestamp (csv_field row "uploaded_at")))) [
      | inl e ↦ (s, rw e (captured_at_text row s h).1, (captured_at_text row s h).0)
      | inr (t, e) ↦
          (t, rw e refl, (nonempty_text (normalise_timestamp (csv_field row "uploaded_at")) t e).0)
    ]

module _ {F : Type 0} where
  get-with_unit :
      (unit : Option String) (event : Fields F) (k : String)
      → str_eq "unit" k ≡ false
      → get (with_unit unit event) k ≡ get event k
  unfolding with_unit
  get-with_unit none event k h = refl
  get-with_unit (some unit) event k h = rw (get-put event "unit" k (str unit), h) refl

abbrev pub unit_of : CsvRow → Option String
unit_of row = valid_unit (to_str (csv_field row "unit"))

module _ {F : Type 0} ⦃n : Number F⦄ (violates : Value F → Bool) where
  -- What remains to be checked of an event with this reading.
  abbrev pub check_reading : Fields F → Option F → ValidationResult
  check_reading event none = check_schema violates (obj event)
  check_reading event (some cpm) = check_plausible violates (obj event) cpm

  check_cpm_reading :
      (event : Fields F) (cpm : Option F)
      → get event "cpm" ≡ number_value cpm
      → ((x : F) → cpm ≡ some x → n.fits x ≡ true)
      → check_cpm violates event ≡ ok (check_reading event cpm)
  unfolding check_cpm to_float check_range
  check_cpm_reading event none h fits = rw h refl
  check_cpm_reading event (some x) h fits = rw (h, fits x refl) refl

-- A reading from a CSV cell is a float already.
cpm_of-fits :
    {F : Type 0} ⦃n : Number F⦄ (row : CsvRow) (unit : Option String) (x : F)
    → cpm_of row unit ≡ some x
    → n.fits x ≡ true
unfolding cpm_of cell_to_float
cpm_of-fits ⦃n = n⦄ row none x h = absurd (ground arith)
cpm_of-fits ⦃n = n⦄ row (some unit) x h = cell (csv_field row "value") h
  where
    cell : (o : Option String) → cell_to_float o ≡ some x → n.fits x ≡ true
    cell none h = absurd (ground arith)
    cell (some s) h = elim (Bool-cases (str_eq (strip s) "")) [
      | inl e ↦ absurd (ground arith)
      | inr e ↦ n.parse_fits s x (rw e at h)
    ]

module _ {F : Type 0} ⦃n : Number F⦄ (hexdigest : String → String) where
  module _ (row : CsvRow) (sensor_id captured_at uploaded_at : String) (latitude longitude : F)
      (hs : str_eq sensor_id "" ≡ false) (hc : str_eq captured_at "" ≡ false)
      (uploaded : resolve_timestamp_or row "uploaded_at" "captured_at" ≡ some uploaded_at)
      (hu : str_eq uploaded_at "" ≡ false) where
    first_missing-event_of :
        first_missing
          (event_of hexdigest row sensor_id captured_at latitude longitude)
          required_fields
        ≡ none
    unfolding event_of first_missing get
    first_missing-event_of =
        rw
          (
            get-with_unit (unit_of row) _ "sensor_id" refl,
            hs,
            get-with_unit (unit_of row) _ "captured_at" refl,
            hc,
            get-with_unit (unit_of row) _ "uploaded_at" refl,
            uploaded,
            hu,
            get-with_unit (unit_of row) _ "latitude" refl,
            get-with_unit (unit_of row) _ "longitude" refl,
          )
          refl

    get-event_of :
        let event = event_of hexdigest row sensor_id captured_at latitude longitude in
        (get event "sensor_id" ≡ str sensor_id)
        × (get event "latitude" ≡ num latitude)
        × (get event "longitude" ≡ num longitude)
        × (get event "cpm" ≡ number_value (cpm_of row (unit_of row)))
    unfolding event_of get
    get-event_of = (
      get-with_unit (unit_of row) _ "sensor_id" refl,
      get-with_unit (unit_of row) _ "latitude" refl,
      get-with_unit (unit_of row) _ "longitude" refl,
      get-with_unit (unit_of row) _ "cpm" refl,
    )

    validate-event_of :
        (violates : Value F → Bool)
        → let event = event_of hexdigest row sensor_id captured_at latitude longitude in
          validate violates (obj event)
          ≡ ok (check_reading violates event (cpm_of row (unit_of row)))
    unfolding validate
    validate-event_of violates =
        let event = event_of hexdigest row sensor_id captured_at latitude longitude in
        ap (check_fields violates event) first_missing-event_of
        ∙ check_cpm_reading violates event (cpm_of row (unit_of row)) get-event_of.3
            (cpm_of-fits row (unit_of row))

  module _ (violates : Value F → Bool) (row : CsvRow) where
    -- A sensor_id, coordinates in range, and of the validator's checks only those of the reading and of
    -- the schema remain.
    abbrev pub IsPrefiltered : Fields F → Type 0
    IsPrefiltered event =
        (sensor_id : String) × (latitude : F) × (longitude : F) × (get event "sensor_id"
          ≡ str sensor_id)
        × (str_eq sensor_id "" ≡ false)
        × (get event "latitude" ≡ num latitude)
        × (within_bound latitude 90 ≡ true)
        × (get event "longitude" ≡ num longitude)
        × (within_bound longitude 180 ≡ true)
        × (validate violates (obj event)
            ≡ ok (check_reading violates event (cpm_of row (unit_of row))))

    locate_lem :
        (sensor_id captured_at uploaded_at : String)
        → str_eq sensor_id "" ≡ false
        → str_eq captured_at "" ≡ false
        → resolve_timestamp_or row "uploaded_at" "captured_at" ≡ some uploaded_at
        → str_eq uploaded_at "" ≡ false
        → (latitude longitude : Option F) (event : Fields F)
        → locate hexdigest row sensor_id captured_at latitude longitude ≡ some event
        → IsPrefiltered event
    unfolding locate
    locate_lem sensor_id captured_at uploaded_at hs hc uploaded hu (some lat) (some lon) event h =
        elim (Bool-cases (within_bound lat 90)) [
          | inr out ↦ absurd (ground arith)
          | inl lat_in ↦ elim (Bool-cases (within_bound lon 180)) [
            | inr out ↦ absurd (ground arith)
            | inl lon_in ↦
                let made = event_of hexdigest row sensor_id captured_at lat lon in
                let same : made ≡ event = ground arith in
                let fields =
                  get-event_of row sensor_id captured_at uploaded_at lat lon hs hc uploaded hu in
                subst IsPrefiltered same (
                  sensor_id,
                  lat,
                  lon,
                  fields.0,
                  hs,
                  fields.1,
                  lat_in,
                  fields.2,
                  lon_in,
                  validate-event_of row sensor_id captured_at uploaded_at lat lon hs hc uploaded hu
                      violates,
                )
          ]
        ]
    locate_lem sensor_id captured_at uploaded_at hs hc uploaded hu none lon event h =
        absurd (ground arith)
    locate_lem sensor_id captured_at uploaded_at hs hc uploaded hu (some lat) none event h =
        absurd (ground arith)

    -- An event that the mapper makes of a row has a sensor_id that is not empty and coordinates in
    -- range; the shared validator
    -- finds every required field in it, and rejects it only for the range of its reading or for a
    -- violation of the schema.
    pub validate-row_to_event :
        (event : Fields F) → row_to_event hexdigest row ≡ some event → IsPrefiltered event
    unfolding row_to_event identify
    validate-row_to_event event h = elim (Option-cases (resolve_sensor_id row)) [
      | inl e ↦ absurd (ground arith)
      | inr (sensor_id, e) ↦ elim (Option-cases (resolve_timestamp row "captured_at")) [
        | inl e' ↦ absurd (ground arith)
        | inr (captured_at, e') ↦
            let (uploaded_at, uploaded, hu) = uploaded_at_text row captured_at e' in
            locate_lem sensor_id captured_at uploaded_at (sensor_id_text row sensor_id e)
              (captured_at_text row captured_at e').0 uploaded hu
              (cell_to_float (csv_field row "latitude")) (cell_to_float (csv_field row "longitude"))
              event (rw (e, e') at h)
      ]
    ]
