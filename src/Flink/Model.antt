-- ===== src/Flink/Model.antt =====
-- flink-jobs/model/ and flink-jobs/serde/: the events and the configuration that the job parses, and
-- _parse_record of flink-jobs/radiation_tracking_job.py. `json.loads` is the parameter `loads`.
pub mod Poison
use radiation_tracking.Prelude.{
  String, ◌≡◌, Bool, true, false, Option, none, some, str_eq, if◌then◌else◌, ◌&&◌, ◌||◌,
}
use radiation_tracking.Python.{
  Number, Result, ok, raise, type_error, value_error, ◌>>=◌, tolerate, or_raise, Datetime, Value,
  null, str, num, obj, Fields, end, field, get, has, item, attribute_get, truthy, to_float,
}
use radiation_tracking.Flink.Timestamps.{parse_timestamp}

pub record RadiationEvent (F D : Type 0) : Type 0 where
  pub sensor_id : Value F
  pub captured_at : D
  pub uploaded_at : D
  pub latitude : F
  pub longitude : F
  pub cpm : Value F
  pub unit : Value F
  pub classification : Value F
  pub location_name : Value F
  pub height : Value F
  pub surface : Value F
  pub md5sum : Value F
  pub loader_id : Value F

module _ {F D : Type 0} ⦃n : Number F⦄ ⦃t : Datetime D⦄ where
  unfoldable pub event_from_dict : Value F → Result (RadiationEvent F D)
  event_from_dict d = do
    sensor_id ← item d "sensor_id"
    captured_at ← item d "captured_at"
    captured ← parse_timestamp captured_at
    uploaded_at ← item d "uploaded_at"
    uploaded ← parse_timestamp uploaded_at
    latitude ← item d "latitude"
    lat ← to_float latitude
    longitude ← item d "longitude"
    lon ← to_float longitude
    cpm ← attribute_get d "cpm"
    unit ← attribute_get d "unit"
    classification ← attribute_get d "classification"
    location_name ← attribute_get d "location_name"
    height ← attribute_get d "height"
    surface ← attribute_get d "surface"
    md5sum ← attribute_get d "md5sum"
    loader_id ← attribute_get d "loader_id"
    ok (record {
      sensor_id = sensor_id;
      captured_at = captured;
      uploaded_at = uploaded;
      latitude = lat;
      longitude = lon;
      cpm = cpm;
      unit = unit;
      classification = classification;
      location_name = location_name;
      height = height;
      surface = surface;
      md5sum = md5sum;
      loader_id = loader_id;
    })

  unfoldable pub event_to_dict : RadiationEvent F D → Value F
  event_to_dict e = obj (
      field "sensor_id" e.sensor_id (
        field "captured_at" (str (t.isoformat e.captured_at)) (
          field "uploaded_at" (str (t.isoformat e.uploaded_at)) (
            field "latitude" (num e.latitude) (
              field "longitude" (num e.longitude) (
                field "cpm" e.cpm (
                  field "unit" e.unit (
                    field "classification" e.classification (
                      field "location_name" e.location_name (
                        field "height" e.height (
                          field "surface" e.surface
                            (field "md5sum" e.md5sum (field "loader_id" e.loader_id end)))))))))))))

module _ {F D : Type 0} ⦃n : Number F⦄ (t : Datetime D) (loads : String → Result (Value F)) where
  parse_event : String → Result (Value F)
  parse_event raw = do event ← loads raw; checked ← event_from_dict ⦃t = t⦄ event; ok event

  -- `ok none` is a record that is skipped; `raise` fails the task.
  unfoldable pub parse_record : String → Result (Option (Value F))
  unfolding parse_event
  parse_record raw = tolerate (parse_event raw)

-- The values of an area are stored as they come: a dataclass checks no types.
pub record Area (F : Type 0) : Type 0 where
  pub min_lat : Value F
  pub max_lat : Value F
  pub min_lon : Value F
  pub max_lon : Value F

pub record Timespan (D : Type 0) : Type 0 where
  pub start : D
  pub stop : D

pub record ConfigUpdate (F D : Type 0) : Type 0 where
  pub cpm_warn_threshold : F
  pub cpm_danger_threshold : F
  pub area : Option (Area F)
  pub timespan : Option (Timespan D)

abbrev is_bound : String → Bool
is_bound k = str_eq k "min_lat" || str_eq k "max_lat" || str_eq k "min_lon" || str_eq k "max_lon"

module _ {F : Type 0} where
  only_bounds : Fields F → Bool
  only_bounds end = true
  only_bounds (field k v d) = is_bound k && only_bounds d

  -- `Area(**d)`: TypeError unless the keys are exactly the four fields.
  unfoldable pub area_of : Value F → Result (Area F)
  unfolding only_bounds get has
  area_of (obj d) =
      if only_bounds d && has d "min_lat" && has d "max_lat" && has d "min_lon" && has d "max_lon"
      then ok (record {
        min_lat = get d "min_lat";
        max_lat = get d "max_lat";
        min_lon = get d "min_lon";
        max_lon = get d "max_lon";
      })
      else raise type_error
  area_of _ = raise type_error

module _ {F : Type 0} ⦃n : Number F⦄ where
  -- `f(v) if v else None`
  unfoldable pub if_truthy {ℓ} : {A : Type ℓ} → (Value F → Result A) → Value F → Result (Option A)
  if_truthy f v = if truthy v then (do a ← f v; ok (some a)) else ok none

module _ {F D : Type 0} ⦃n : Number F⦄ ⦃t : Datetime D⦄ where
  -- `datetime.fromisoformat(v)`: TypeError for anything but a text.
  unfoldable pub from_iso_value : Value F → Result D
  unfolding or_raise
  from_iso_value (str s) = or_raise value_error (t.fromisoformat s)
  from_iso_value _ = raise type_error

  unfoldable pub timespan_of : Value F → Result (Timespan D)
  timespan_of d = do
    start ← item d "start"
    from ← from_iso_value start
    stop ← item d "end"
    to ← from_iso_value stop
    ok (record { start = from; stop = to })

  unfoldable pub config_from_dict : Value F → Result (ConfigUpdate F D)
  config_from_dict d = do
    area_data ← attribute_get d "area"
    timespan_data ← attribute_get d "timespan"
    warn ← item d "cpm_warn_threshold"
    warn_threshold ← to_float warn
    danger ← item d "cpm_danger_threshold"
    danger_threshold ← to_float danger
    area ← if_truthy area_of area_data
    timespan ← if_truthy timespan_of timespan_data
    ok (record {
      cpm_warn_threshold = warn_threshold;
      cpm_danger_threshold = danger_threshold;
      area = area;
      timespan = timespan;
    })

-- deserialize_config
module _ {F D : Type 0} ⦃n : Number F⦄ (t : Datetime D) (loads : String → Result (Value F)) where
  unfoldable pub deserialize_config : String → Result (ConfigUpdate F D)
  deserialize_config raw = do d ← loads raw; config_from_dict ⦃t = t⦄ d
