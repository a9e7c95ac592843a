-- ===== src/Flink/Region/Poison.antt =====
-- flink-jobs/operators/region_filter.py: an area whose bounds are not numbers, which
-- flink-jobs/model/config_update.py does not check.
use radiation_tracking.Prelude.{String, ◌≡◌, refl, true, false, some, arith}
use radiation_tracking.Python.{
  Number, Result, ok, raise, type_error, tolerate, Datetime, Value, null, obj, Fields, get, index,
  item, attribute_get, or_else, truthy, to_float,
}
use radiation_tracking.Flink.Model.{ConfigUpdate, deserialize_config}
use radiation_tracking.Flink.Region.{
  bound, between, in_area, passes_area, event_passes, Region, read, filter_event, checked, store,
  update_region,
}
use radiation_tracking.Flink.Region.Events.{is_number}

truthy_obj :
    {F : Type 0} ⦃n : Number F⦄ (a : Fields F) (v : Value F)
    → index a "min_lat" ≡ ok v
    → truthy (obj a) ≡ true
unfolding index truthy
truthy_obj Fields.end v h = absurd (ground arith)
truthy_obj (Fields.field k w a) v h = refl

module _ {F : Type 0} ⦃n : Number F⦄ where
  bad_area :
      (event a : Fields F) (latitude longitude v : Value F) (x : F)
      → index event "latitude" ≡ ok latitude
      → index event "longitude" ≡ ok longitude
      → to_float latitude ≡ ok x
      → index a "min_lat" ≡ ok v
      → is_number v ≡ false
      → passes_area event (obj a) ≡ raise type_error
  unfolding passes_area in_area between item bound
  bad_area event a latitude longitude v x hlat hlon hx hv hn =
      rw (hlat, hlon, hv, hx) (ground arith)

module _ {F D : Type 0} ⦃n : Number F⦄ (t : Datetime D) (loads : String → Result (Value F))
    (dumps : Value F → String) where
  -- A config.updates message that the configuration accepts, with an area whose min_lat is no number
  -- and which, like its timespan, reads back from its JSON text, is stored, and from then on every event with coordinates, the latitude a float, raises
  -- TypeError, which fails the task.
  pub filter_event_fails :
      (state : Region) (message : String) (config : ConfigUpdate F D) (d a : Fields F) (v : Value F)
      → deserialize_config t loads message ≡ ok config
      → loads message ≡ ok (obj d)
      → get d "area" ≡ obj a
      → loads (dumps (obj a)) ≡ ok (obj a)
      → loads (dumps (or_else (get d "timespan") null)) ≡ ok (or_else (get d "timespan") null)
      → index a "min_lat" ≡ ok v
      → is_number v ≡ false
      → (next : Region) × (update_region t loads dumps state message ≡ ok next)
        × ((event : Fields F) (latitude longitude : Value F) (x : F)
            → index event "latitude" ≡ ok latitude
            → index event "longitude" ≡ ok longitude
            → to_float latitude ≡ ok x
            → filter_event t loads next event ≡ raise type_error)
  unfolding update_region checked store attribute_get tolerate filter_event read event_passes
  filter_event_fails state message config d a v hc hl ha ra rt hv hn = (
    record {
      area_text = some (dumps (obj a));
      timespan_text = some (dumps (or_else (get d "timespan") null));
    },
    rw (hc, hl, ha, truthy_obj a v hv) refl,
    λ event latitude longitude x h1 h2 h3.
        rw (ra, rt, bad_area event a latitude longitude v x h1 h2 h3 hv hn) refl,
  )
