-- ===== src/Flink/Region.antt =====
-- flink-jobs/operators/region_filter.py: the events outside the configured area and timespan are
-- dropped. `json.loads` and `json.dumps` are the parameters `loads` and `dumps`; the broadcast state
-- is passed explicitly.
pub mod Events
pub mod Broadcast
pub mod Poison
use radiation_tracking.Prelude.{
  ℕ, String, Bool, true, false, ◌&&◌, Option, none, some, List, [], ◌∷◌, if◌then◌else◌,
}
use radiation_tracking.Prelude.Int.{ℤ, leb_ℤ, ltb_ℤ}
use radiation_tracking.Python.{
  Number, Result, ok, raise, type_error, ◌>>=◌, tolerate, Datetime, Value, null, bool, num, Fields,
  item, index, attribute_get, is_none, or_else, to_float,
}
use radiation_tracking.Flink.Timestamps.{parse_timestamp, to_epoch_millis}
use radiation_tracking.Flink.Model.{deserialize_config}

module _ {F : Type 0} ⦃n : Number F⦄ where
  -- A bound as a comparison with a float reads it: TypeError for anything but a number.
  unfoldable pub bound : Value F → Result F
  bound (num x) = ok x
  bound (bool true) = ok (n.of_ℕ 1)
  bound (bool false) = ok (n.of_ℕ 0)
  bound _ = raise type_error

  -- `area[low] <= float(v) <= area[high]`
  unfoldable pub between : Value F → String → String → Value F → Result Bool
  between area low high v = do
    low_value ← item area low
    x ← to_float v
    low_bound ← bound low_value
    if n.le low_bound x
        then (do high_value ← item area high; high_bound ← bound high_value; ok (n.le x high_bound))
        else ok false

  unfoldable pub in_area : Value F → Value F → Value F → Result Bool
  unfolding between
  in_area latitude longitude area = do
    inside ← between area "min_lat" "max_lat" latitude
    if inside then between area "min_lon" "max_lon" longitude else ok false

  -- The first test of event_passes.
  unfoldable pub passes_area : Fields F → Value F → Result Bool
  passes_area event area = if is_none area then ok true else do
    latitude ← index event "latitude"
    longitude ← index event "longitude"
    in_area latitude longitude area

module _ {F D : Type 0} ⦃n : Number F⦄ (t : Datetime D) where
  -- `to_epoch_millis(_parse_timestamp(v))`
  unfoldable pub millis_of : Value F → Result ℤ
  millis_of v = do d ← parse_timestamp ⦃t = t⦄ v; ok (to_epoch_millis ⦃t = t⦄ d)

  unfoldable pub in_timespan : Value F → Value F → Result Bool
  unfolding millis_of
  in_timespan captured_at timespan = do
    captured ← millis_of captured_at
    start_value ← item timespan "start"
    start ← millis_of start_value
    end_value ← item timespan "end"
    stop ← millis_of end_value
    ok (leb_ℤ start captured && ltb_ℤ captured stop)

  -- The second test.
  unfoldable pub passes_timespan : Fields F → Value F → Result Bool
  passes_timespan event timespan =
      if is_none timespan
      then ok true
      else do captured_at ← index event "captured_at"; in_timespan captured_at timespan

  unfoldable pub event_passes : Fields F → Value F → Value F → Result Bool
  unfolding passes_area passes_timespan
  event_passes event area timespan = do
    inside ← passes_area event area
    if inside then passes_timespan event timespan else ok false

-- The broadcast state: the texts under "area" and "timespan".
pub record Region : Type 0 where
  pub area_text : Option String
  pub timespan_text : Option String

abbrev pub no_region : Region
no_region = record { area_text = none; timespan_text = none }

module _ {F D : Type 0} ⦃n : Number F⦄ (t : Datetime D) (loads : String → Result (Value F)) where
  -- _read
  unfoldable pub read : Option String → Result (Value F)
  read none = ok null
  read (some text) = loads text

  -- process_element
  unfoldable pub filter_event : Region → Fields F → Result (List (Fields F))
  filter_event state event = do
    area ← read state.area_text
    timespan ← read state.timespan_text
    passes ← event_passes t event area timespan
    ok (if passes then event ∷ [] else [])

  -- The message as process_broadcast_element reads it, checked first.
  unfoldable pub checked : String → Result (Value F)
  checked message = do config ← deserialize_config t loads message; loads message

  unfoldable pub store : (Value F → String) → Region → Option (Value F) → Result Region
  store dumps state none = ok state
  store dumps state (some raw) = do
    area ← attribute_get raw "area"
    timespan ← attribute_get raw "timespan"
    ok (record {
      area_text = some (dumps (or_else area null));
      timespan_text = some (dumps (or_else timespan null));
    })

  -- process_broadcast_element
  unfoldable pub update_region : (Value F → String) → Region → String → Result Region
  unfolding checked store
  update_region dumps state message = do raw ← tolerate (checked message); store dumps state raw
