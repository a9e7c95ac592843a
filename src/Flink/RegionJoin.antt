-- ===== src/Flink/RegionJoin.antt =====
-- flink-jobs/operators/alert_region_join.py: alerts joined with the latest blob of their cell.
-- `json.dumps` of a blob and `json.loads` are the parameters `dumps` and `loads`.
pub mod Latest
use radiation_tracking.Prelude.{
  String, Bool, true, false, ◌||◌, Option, none, some, List, [], ◌∷◌, str_eq, if◌then◌else◌,
}
use radiation_tracking.Python.{
  Number, Result, ok, raise, ◌>>=◌, Value, null, str, obj, Fields, field, end, get, put,
  attribute_get, is_none, truthy,
}
use radiation_tracking.Flink.GeoAggregation.{geo_bucket}

module _ {F : Type 0} ⦃n : Number F⦄ where
  -- At the default precision.
  unfoldable pub alert_geohash : (F → F → F → String) → F → Fields F → Result (Value F)
  alert_geohash encode precision alert =
      let latitude = get alert "latitude" in
      let longitude = get alert "longitude" in
      if is_none latitude || is_none longitude
      then ok null
      else do geohash ← geo_bucket encode latitude longitude precision; ok (str geohash)

  unfoldable pub with_alert_geohash : (F → F → F → String) → F → Fields F → Result (Fields F)
  unfolding alert_geohash
  with_alert_geohash encode precision alert = do
    geohash ← alert_geohash encode precision alert
    ok (put alert "geohash" geohash)

  unfoldable pub region_summary : Value F → Result (Value F)
  region_summary blob = do
    cpm_avg ← attribute_get blob "cpm_avg"
    cpm_max ← attribute_get blob "cpm_max"
    count ← attribute_get blob "count"
    worst_classification ← attribute_get blob "worst_classification"
    centroid_latitude ← attribute_get blob "centroid_latitude"
    centroid_longitude ← attribute_get blob "centroid_longitude"
    ok (
        obj (
          field "cpm_avg" cpm_avg (
            field "cpm_max" cpm_max (
              field "count" count (
                field "worst_classification" worst_classification (
                  field "centroid_latitude" centroid_latitude
                    (field "centroid_longitude" centroid_longitude end)))))))

  -- None is `null`.
  unfoldable pub enrich_alert_with_region : Fields F → Value F → Result (Fields F)
  enrich_alert_with_region alert region =
      if truthy region
      then (do summary ← region_summary region; ok (put alert "hot_region" summary))
      else ok (put alert "hot_region" null)

-- An element of one of the two inputs.
pub data Input (F : Type 0) : Type 0 where
  alert : Fields F → Input F
  blob : Fields F → Input F

module _ {F : Type 0} ⦃n : Number F⦄ (loads : String → Result (Value F))
    (dumps : Fields F → String) where
  -- `json.loads(raw) if raw else None`
  unfoldable pub latest_region : Option String → Result (Value F)
  latest_region none = ok null
  latest_region (some raw) = if str_eq raw "" then ok null else loads raw

  -- process_element1
  unfoldable pub process_alert : Option String → Fields F → Result (Fields F)
  unfolding latest_region
  process_alert state a = do region ← latest_region state; enrich_alert_with_region a region

  -- process_element2
  unfoldable pub process_blob : Option String → Fields F → Option String
  process_blob state b = some (dumps b)

  -- What the operator yields for the elements of one cell, as they arrive.
  unfoldable pub run : Option String → List (Input F) → Result (List (Fields F))
  run state [] = ok []
  run state (alert a ∷ rest) = do
    enriched ← process_alert state a
    more ← run state rest
    ok (enriched ∷ more)
  run state (blob b ∷ rest) = run (process_blob state b) rest
