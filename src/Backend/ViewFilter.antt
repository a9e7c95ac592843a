-- ===== src/Backend/ViewFilter.antt =====
-- backend/app/core/view_filter.py: the box and the time range that narrow one client's stream.
pub mod Validity
pub mod FailOpen
pub mod Tests
use radiation_tracking.Prelude.{
  String, Bool, true, false, not, ◌&&◌, ◌||◌, Option, none, some, List, [], ◌∷◌, map, str_eq,
  if◌then◌else◌,
}
use radiation_tracking.Python.{
  Number, Result, ok, raise, value_error, overflow_error, or_raise, ◌>>=◌, Datetime, Value, null,
  bool, num, str, obj, Fields, end, get, is_none, or_else,
}
use radiation_tracking.Python.Text.{replace_z}
use radiation_tracking.Backend.Broadcaster.{Message}

pub record ViewFilter (F D : Type 0) : Type 0 where
  pub min_lat : Option F
  pub max_lat : Option F
  pub min_lon : Option F
  pub max_lon : Option F
  pub from : Option D
  pub until : Option D

module _ {D : Type 0} (t : Datetime D) where
  -- OverflowError for a time that UTC puts before the year 1 or after the year 9999.
  unfoldable pub as_utc : D → Result D
  unfolding or_raise
  as_utc value =
      if t.is_naive value
      then ok (t.replace_utc value)
      else or_raise overflow_error (t.astimezone_utc value)

  abbrev pub utc_or_none : Option D → Result (Option D)
  utc_or_none none = ok none
  utc_or_none (some d) = as_utc d >>= λ u. ok (some u)

module _ {F D : Type 0} (t : Datetime D) where
  -- _parse_ts of a JSON value; only ValueError is caught.
  unfoldable pub parse_ts : Value F → Result (Option D)
  parse_ts (str s) = if str_eq s "" then ok none else utc_or_none t (t.fromisoformat (replace_z s))
  parse_ts _ = ok none

module _ {F : Type 0} ⦃n : Number F⦄ where
  -- The checks of the box: all bounds or none, and their ranges.
  unfoldable pub box_is_valid : Option F → Option F → Option F → Option F → Bool
  box_is_valid (some a) (some b) (some c) (some d) =
      n.le (n.neg (n.of_ℕ 90)) a
      && n.lt a b
      && n.le b (n.of_ℕ 90)
      && n.le (n.neg (n.of_ℕ 180)) c
      && n.lt c d
      && n.le d (n.of_ℕ 180)
  box_is_valid none none none none = true
  box_is_valid _ _ _ _ = false

module _ {D : Type 0} (t : Datetime D) where
  abbrev pub starts_first : D → D → Result (Option D × Option D)
  starts_first a b = if t.le b a then raise value_error else ok (some a, some b)

  -- The checks of the time range, with both ends in UTC.
  unfoldable pub utc_range : Option D → Option D → Result (Option D × Option D)
  utc_range (some a) (some b) = as_utc t a >>= λ a. as_utc t b >>= λ b. starts_first a b
  utc_range none none = ok (none, none)
  utc_range _ _ = raise value_error

module _ {F D : Type 0} ⦃n : Number F⦄ (t : Datetime D) where
  -- The constructor, with __post_init__.
  unfoldable pub view_filter :
      Option F → Option F → Option F → Option F → Option D → Option D → Result (ViewFilter F D)
  view_filter min_lat max_lat min_lon max_lon from until =
      let with_range = utc_range t from until >>= λ ends. ok (record {
        min_lat = min_lat;
        max_lat = max_lat;
        min_lon = min_lon;
        max_lon = max_lon;
        from = ends.0;
        until = ends.1;
      }) in
      if box_is_valid min_lat max_lat min_lon max_lon then with_range else raise value_error

module _ {F : Type 0} ⦃n : Number F⦄ where
  abbrev pub num_value : Value F → Result (Option F)
  num_value null = ok none
  num_value (num x) = if n.fits x then ok (some x) else raise overflow_error
  num_value _ = raise value_error

  -- `_num`
  unfoldable pub num_at : Fields F → String → Result (Option F)
  num_at d key = num_value (get d key)

-- What `_ts` makes of a parsed text.
abbrev pub parsed_or_raise : {D : Type 0} → Option D → Result (Option D)
parsed_or_raise none = raise value_error
parsed_or_raise (some d) = ok (some d)

module _ {F D : Type 0} (t : Datetime D) where
  unfoldable pub ts_value : Value F → Result (Option D)
  ts_value null = ok none
  ts_value (str s) =
      if str_eq s "" then ok none else (parse_ts {F = F} t (str s) >>= parsed_or_raise)
  ts_value _ = raise value_error

  -- `_ts`
  unfoldable pub ts_at : Fields F → String → Result (Option D)
  unfolding ts_value
  ts_at d key = ts_value (get d key)

module _ {F D : Type 0} ⦃n : Number F⦄ (t : Datetime D) where
  unfoldable pub from_objects : Fields F → Fields F → Result (ViewFilter F D)
  from_objects area timespan = do
    min_lat ← num_at area "min_lat"
    max_lat ← num_at area "max_lat"
    min_lon ← num_at area "min_lon"
    max_lon ← num_at area "max_lon"
    from ← ts_at t timespan "start"
    until ← ts_at t timespan "end"
    view_filter t min_lat max_lat min_lon max_lon from until

  -- ValueError unless both are dicts.
  unfoldable pub from_values : Value F → Value F → Result (ViewFilter F D)
  from_values (obj area) (obj timespan) = from_objects area timespan
  from_values _ _ = raise value_error

  unfoldable pub from_subscribe : Fields F → Result (ViewFilter F D)
  unfolding from_values
  from_subscribe payload =
      from_values (or_else (get payload "area") (obj end))
        (or_else (get payload "timespan") (obj end))

module _ {F : Type 0} ⦃n : Number F⦄ where
  -- A value that is an `int` or a `float`, as `bool` is too.
  unfoldable pub number_of : Value F → Option F
  number_of (num x) = some x
  number_of (bool true) = some (n.of_ℕ 1)
  number_of (bool false) = some (n.of_ℕ 0)
  number_of _ = none

module _ {F : Type 0} ⦃n : Number F⦄ where
  -- Comparisons with a bound, which is there once one of them is.
  abbrev pub at_most : F → Option F → Bool
  at_most x none = true
  at_most x (some high) = n.le x high

  abbrev pub at_least : Option F → F → Bool
  at_least none x = true
  at_least (some low) x = n.le low x

module _ {F D : Type 0} ⦃n : Number F⦄ where
  -- The test of _in_area, from the bound that tells whether there is a box, and the coordinates that
  -- are numbers.
  abbrev pub box_test : ViewFilter F D → Option F → Option F → Option F → Bool
  box_test f (some south) (some x) (some y) =
      n.le south x && at_most x f.max_lat && at_least f.min_lon y && at_most y f.max_lon
  box_test f _ _ _ = true

  -- _in_area
  unfoldable pub in_box : ViewFilter F D → Option F → Option F → Bool
  in_box f lat lon = box_test f f.min_lat lat lon

module _ {D : Type 0} (t : Datetime D) where
  -- The test of _in_timespan, from the ends of the range and the first time.
  abbrev pub range_test : Option D → Option D → Option D → Bool
  range_test (some from) (some until) (some d) = t.le from d && t.le d until
  range_test _ _ _ = true

  -- The times are read only where there is a range.
  abbrev pub time_test : Option D → Option D → Result (Option D) → Result Bool
  time_test none until time = ok true
  time_test (some from) until time = time >>= λ d. ok (range_test (some from) until d)

abbrev pub or_later : {D : Type 0} → Result (Option D) → Option D → Result (Option D)
or_later later none = later
or_later later (some d) = ok (some d)

module _ {F D : Type 0} (t : Datetime D) where
  -- The first of the values that is a time.
  abbrev pub first_ts : List (Value F) → Result (Option D)
  first_ts [] = ok none
  first_ts (v ∷ vs) = let later = first_ts vs in parse_ts t v >>= or_later later

  -- _in_timespan
  unfoldable pub in_time : ViewFilter F D → List (Value F) → Result Bool
  in_time f timestamps = time_test t f.from f.until (first_ts timestamps)

-- _MESSAGE_FIELDS: the keys of the coordinates and of the times.
pub record MessageFields : Type 0 where
  pub lat_key : String
  pub lon_key : String
  pub ts_keys : List String

unfoldable pub message_fields : String → Option MessageFields
message_fields kind =
    if str_eq kind "clean"
    then some (record { lat_key = "latitude"; lon_key = "longitude"; ts_keys = "captured_at" ∷ [] })
    else if str_eq kind "aggregated"
    then some (record {
      lat_key = "centroid_latitude";
      lon_key = "centroid_longitude";
      ts_keys = "window_start" ∷ [];
    })
    else if str_eq kind "alert"
    then some (record {
      lat_key = "latitude";
      lon_key = "longitude";
      ts_keys = "window_start" ∷ "triggered_at" ∷ [];
    })
    else none

module _ {F D : Type 0} ⦃n : Number F⦄ (t : Datetime D) where
  unfoldable pub matches_data : ViewFilter F D → MessageFields → Fields F → Result Bool
  matches_data f fields d =
      let timely = in_time t f (map (get d) fields.ts_keys) in
      if in_box f (number_of (get d fields.lat_key)) (number_of (get d fields.lon_key))
      then timely
      else ok false

  abbrev pub matches_payload : ViewFilter F D → MessageFields → Value F → Result Bool
  matches_payload f fields (obj d) = matches_data f fields d
  matches_payload f fields _ = ok true

  abbrev pub matches_fields : ViewFilter F D → Option MessageFields → Value F → Result Bool
  matches_fields f none payload = ok true
  matches_fields f (some fields) payload = matches_payload f fields payload

  -- matches_message
  unfoldable pub matches_message : ViewFilter F D → Message F → Result Bool
  matches_message f message = matches_fields f (message_fields message.kind) message.payload
