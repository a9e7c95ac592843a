-- ===== src/Flink/Tests/Regions.antt =====
-- The region filter on a concrete area and timespan.
use radiation_tracking.Prelude.{
  String, ◌≡◌, refl, subst, ◌&&◌, none, some, [], ◌∷◌, if◌then◌else◌, str_eq, arith,
}
use radiation_tracking.Prelude.Int.{ℤ, pos, leb_ℤ, ltb_ℤ}
use radiation_tracking.Python.{
  Result, ok, raise, type_error, json_decode_error, Tolerated, ◌>>=◌, Value, null, num, str, obj,
  Fields, field, end, get, item, index, attribute_get, or_else, truthy, to_float, or_raise, has,
}
use radiation_tracking.Python.Text.{strip, search_fraction}
use radiation_tracking.Flink.Tests.Samples.{clock, read_integers}
use radiation_tracking.Flink.Timestamps.{parse_timestamp, to_epoch_millis, pad_fraction}
use radiation_tracking.Flink.Model.{
  deserialize_config, config_from_dict, if_truthy, area_of, ConfigUpdate,
}
use radiation_tracking.Flink.Region.{
  millis_of, event_passes, no_region, filter_event, update_region, Region,
}
use radiation_tracking.Flink.Region.Events.{Box, event_passes_lem}
use radiation_tracking.Flink.Region.Broadcast.{ReadsBack, updates, latest, filter_event-updates}
use radiation_tracking.Flink.Region.Poison.{filter_event_fails}

abbrev area : Value ℤ → Fields ℤ
area min_lat = field "min_lat" min_lat (
    field "max_lat" (num (pos 60))
      (field "min_lon" (num (pos 20)) (field "max_lon" (num (pos 30)) end)))

abbrev timespan : Value ℤ
timespan = obj (field "start" (str "T00") (field "end" (str "T10") end))

abbrev event : Fields ℤ
event =
    field "latitude" (num (pos 59))
      (field "longitude" (num (pos 24)) (field "captured_at" (str "T05") end))

box : Box (obj (area (num (pos 50))))
unfolding item index
box = record {
  south = pos 50;
  north = pos 60;
  west = pos 20;
  east = pos 30;
  min_lat = refl;
  max_lat = refl;
  min_lon = refl;
  max_lon = refl;
}

abbrev time : String → Value ℤ
time s = str s

at_t00 : millis_of clock (time "T00") ≡ ok (pos 0)
unfolding millis_of parse_timestamp to_epoch_millis pad_fraction search_fraction strip or_raise
at_t00 = refl

at_t05 : millis_of clock (time "T05") ≡ ok (pos 300000)
unfolding millis_of parse_timestamp to_epoch_millis pad_fraction search_fraction strip or_raise
at_t05 = refl

at_t10 : millis_of clock (time "T10") ≡ ok (pos 600000)
unfolding millis_of parse_timestamp to_epoch_millis pad_fraction search_fraction strip or_raise
at_t10 = refl

event_passes_lem_example :
    event_passes clock event (obj (area (num (pos 50)))) timespan
    ≡ ok (
        leb_ℤ box.south (pos 59)
        && leb_ℤ (pos 59) box.north
        && leb_ℤ box.west (pos 24)
        && leb_ℤ (pos 24) box.east
        && leb_ℤ (pos 0) (pos 300000)
        && ltb_ℤ (pos 300000) (pos 600000))
unfolding item index to_float
event_passes_lem_example =
    event_passes_lem clock event (obj (area (num (pos 50)))) timespan (num (pos 59)) (num (pos 24))
      (str "T05") (str "T00") (str "T10") box (pos 59) (pos 24) (pos 300000) (pos 0) (pos 600000)
      refl refl refl refl refl refl refl refl refl at_t05 at_t00 at_t10

abbrev configured : Value ℤ → Fields ℤ
configured min_lat =
    field "cpm_warn_threshold" (num (pos 30))
      (field "cpm_danger_threshold" (num (pos 50)) (field "area" (obj (area min_lat)) end))

-- The texts "area", "bad" and "null" are values, as well as the two messages that hold the areas.
abbrev loads : String → Result (Value ℤ)
loads s =
    if str_eq s "good message"
    then ok (obj (configured (num (pos 50))))
    else if str_eq s "bad message"
    then ok (obj (configured null))
    else if str_eq s "area"
    then ok (obj (area (num (pos 50))))
    else if str_eq s "bad"
    then ok (obj (area null))
    else if str_eq s "null"
    then ok null
    else raise json_decode_error

abbrev dumps : Value ℤ → String
dumps null = "null"
dumps (obj (field k null d)) = "bad"
dumps _ = "area"

tame_good : Tolerated (deserialize_config clock loads "good message")
unfolding deserialize_config config_from_dict attribute_get item index get if_truthy truthy to_float
    area_of has
tame_good = tt

tame_oops : Tolerated (deserialize_config clock loads "oops")
unfolding deserialize_config
tame_oops = tt

abbrev bad_config : ConfigUpdate ℤ ℤ
bad_config = record {
  cpm_warn_threshold = pos 30;
  cpm_danger_threshold = pos 50;
  area = some (record {
    min_lat = null;
    max_lat = num (pos 60);
    min_lon = num (pos 20);
    max_lon = num (pos 30);
  });
  timespan = none;
}

accepted : deserialize_config clock loads "bad message" ≡ ok bad_config
unfolding deserialize_config config_from_dict attribute_get item index get if_truthy truthy to_float
    area_of has
accepted = refl

filter_event_fails_example :
    (next : Region) × (update_region clock loads dumps no_region "bad message" ≡ ok next)
    × ((e : Fields ℤ) (latitude longitude : Value ℤ) (x : ℤ)
        → index e "latitude" ≡ ok latitude
        → index e "longitude" ≡ ok longitude
        → to_float latitude ≡ ok x
        → filter_event clock loads next e ≡ raise type_error)
unfolding get index truthy
filter_event_fails_example =
    filter_event_fails clock loads dumps no_region "bad message" bad_config (configured null)
      (area null) null accepted refl refl refl refl refl refl

back : ReadsBack clock loads dumps "good message"
unfolding get truthy
back d e =
    let same : configured (num (pos 50)) ≡ d = ground (arith, e) in
    subst
      (λ c.
        (loads (dumps (or_else (get c "area") null)) ≡ ok (or_else (get c "area") null))
        × (loads (dumps (or_else (get c "timespan") null)) ≡ ok (or_else (get c "timespan") null)))
      same (refl, refl)

filter_event-updates_example :
    (do
      state ← updates clock loads dumps no_region ("good message" ∷ "oops" ∷ [])
      filter_event clock loads state event)
    ≡ (do
      let now = latest clock loads dumps (null, null) ("good message" ∷ "oops" ∷ [])
      passes ← event_passes clock event now.0 now.1
      ok (if passes then event ∷ [] else []))
filter_event-updates_example =
    filter_event-updates clock loads dumps ("good message" ∷ "oops" ∷ []) event
      (back, (λ d e. absurd (ground (arith, e)), tt)) (tame_good, (tame_oops, tt))
