-- ===== src/Flink/Region/Events.antt =====
-- flink-jobs/operators/region_filter.py: which events pass an area and a timespan.
use radiation_tracking.Prelude.{◌≡◌, Bool, true, false, ◌&&◌, arith, if◌then◌else◌}
use radiation_tracking.Prelude.Int.{ℤ, leb_ℤ, ltb_ℤ}
use radiation_tracking.Python.{
  Number, ok, Datetime, Value, num, Fields, item, index, is_none, to_float,
}
use radiation_tracking.Flink.Region.{
  bound, between, in_area, millis_of, in_timespan, passes_area, passes_timespan, event_passes,
}

-- A bounding box with numbers for bounds, and a value that holds it.
pub record Box {F : Type 0} (area : Value F) : Type 0 where
  pub south : F
  pub north : F
  pub west : F
  pub east : F
  pub min_lat : item area "min_lat" ≡ ok (num south)
  pub max_lat : item area "max_lat" ≡ ok (num north)
  pub min_lon : item area "min_lon" ≡ ok (num west)
  pub max_lon : item area "max_lon" ≡ ok (num east)

module _ {F D : Type 0} ⦃n : Number F⦄ (t : Datetime D) where
  in_box :
      (area : Value F) (box : Box area) (latitude longitude : Value F) (x y : F)
      → to_float latitude ≡ ok x
      → to_float longitude ≡ ok y
      → in_area latitude longitude area
        ≡ ok (n.le box.south x && n.le x box.north && n.le box.west y && n.le y box.east)
  unfolding in_area between bound
  in_box area box latitude longitude x y h k =
      ground (arith, h, k, box.min_lat, box.max_lat, box.min_lon, box.max_lon)

  -- With a box of numbers and a timespan whose ends parse, an event with float coordinates and a
  -- captured_at that parses passes exactly if it is in the closed box and in the half-open timespan.
  pub event_passes_lem :
      (event : Fields F) (area timespan latitude longitude captured_at from to : Value F)
      (box : Box area) (x y : F) (captured start stop : ℤ)
      → is_none area ≡ false
      → is_none timespan ≡ false
      → index event "latitude" ≡ ok latitude
      → index event "longitude" ≡ ok longitude
      → index event "captured_at" ≡ ok captured_at
      → to_float latitude ≡ ok x
      → to_float longitude ≡ ok y
      → item timespan "start" ≡ ok from
      → item timespan "end" ≡ ok to
      → millis_of t captured_at ≡ ok captured
      → millis_of t from ≡ ok start
      → millis_of t to ≡ ok stop
      → event_passes t event area timespan
        ≡ ok (
            n.le box.south x
            && n.le x box.north
            && n.le box.west y
            && n.le y box.east
            && leb_ℤ start captured
            && ltb_ℤ captured stop)
  unfolding event_passes passes_area passes_timespan in_timespan
  event_passes_lem event area timespan latitude longitude captured_at from to box x y captured start
        stop ha ht hlat hlon hc hx hy hf hs hm hms hme =
      rw
        (ha, hlat, hlon, in_box area box latitude longitude x y hx hy, ht, hc, hm, hf, hs, hms, hme)
        (by_bool (n.le box.south x) (n.le x box.north) (n.le box.west y) (n.le y box.east)
          (leb_ℤ start captured) (ltb_ℤ captured stop))
    where
      by_bool :
          (a b c d e f : Bool)
          → (if a && b && c && d then ok (e && f) else ok false) ≡ ok (a && b && c && d && e && f)
      by_bool a b c d e f = ground arith

abbrev pub is_number : {F : Type 0} → Value F → Bool
is_number (num x) = true
is_number (Value.bool b) = true
is_number _ = false
