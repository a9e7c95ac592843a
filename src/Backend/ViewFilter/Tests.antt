-- ===== src/Backend/ViewFilter/Tests.antt =====
-- View filters on concrete messages.
use radiation_tracking.Prelude.{◌≡◌, refl, false, none, some}
use radiation_tracking.Prelude.Int.{ℤ, pos}
use radiation_tracking.Python.{Fields, ok, field, end, get, num, obj}
use radiation_tracking.Flink.Tests.Samples.{read_integers, exact_clock}
use radiation_tracking.Backend.Broadcaster.{Message}
use radiation_tracking.Backend.ViewFilter.{
  ViewFilter, matches_message, message_fields, matches_data, in_box, in_time, number_of,
}
use radiation_tracking.Backend.ViewFilter.FailOpen.{Evidence, matches_message_lem}

abbrev a_subscribe : Fields ℤ
a_subscribe =
    field "area"
      (obj (
        field "min_lat" (num (pos 50)) (
          field "max_lat" (num (pos 60))
            (field "min_lon" (num (pos 20)) (field "max_lon" (num (pos 30)) end)))))
      end

abbrev north : ViewFilter ℤ ℤ
north = record {
  min_lat = some (pos 50);
  max_lat = some (pos 60);
  min_lon = some (pos 20);
  max_lon = some (pos 30);
  from = none;
  until = none;
}

abbrev elsewhere : Message ℤ
elsewhere = record {
  kind = "clean";
  payload = obj (field "latitude" (num (pos 35)) (field "longitude" (num (pos 25)) end));
}

hidden : matches_message exact_clock north elsewhere ≡ ok false
unfolding matches_message message_fields matches_data in_box in_time number_of get
hidden = refl

matches_message_lem_example : Evidence exact_clock north elsewhere
matches_message_lem_example = matches_message_lem exact_clock north elsewhere hidden
