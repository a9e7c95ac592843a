-- ===== src/Flink/GeoAggregation.antt =====
-- flink-jobs/operators/geo_aggregation.py, and geo_bucket.py and geo_window.py, which key the events
-- by their cell and supply the bounds of a window. `pygeohash.encode` is the parameter `encode`.
pub mod Counts
pub mod Blob
use radiation_tracking.Prelude.{
  ℕ, zero, suc, String, Bool, true, false, not, ◌||◌, Option, none, some, List, [], ◌∷◌, map,
  length, filter, str_eq, if◌then◌else◌,
}
use radiation_tracking.Python.{
  Number, Result, ok, raise, type_error, ◌>>=◌, traverse, Value, null, str, num, arr, obj, Fields,
  field, end, get, put, index, is_none, to_float,
}
use radiation_tracking.Prelude.Int.{ℤ}
use radiation_tracking.Python.Text.{text_length}
use radiation_tracking.Python.Extrema.{best}
use radiation_tracking.Flink.RollingStats.{sum, mean_of, optional}

module _ {F : Type 0} where
  -- `v == label`
  abbrev pub is_label : String → Value F → Bool
  is_label label (str s) = str_eq s label
  is_label label _ = false

  -- `event.get("classification") == label`
  abbrev pub has_label : String → Fields F → Bool
  has_label label event = is_label label (get event "classification")

  -- Lists and dicts have no hash, which a set and a `dict` lookup need.
  unfoldable pub hash_check : Value F → Result (Value F)
  hash_check (arr vs) = raise type_error
  hash_check (obj d) = raise type_error
  hash_check v = ok v

  abbrev pub classification_of : Fields F → Result (Value F)
  classification_of event = hash_check (get event "classification")

  -- `label in present`
  abbrev pub present : String → List (Value F) → Bool
  present label [] = false
  present label (v ∷ vs) = is_label label v || present label vs

  abbrev pub first_present : List String → List (Value F) → Value F
  first_present [] vs = null
  first_present (label ∷ labels) vs =
      let later = first_present labels vs in if present label vs then str label else later

  unfoldable pub worst_classification : List (Fields F) → Result (Value F)
  worst_classification events = do
    found ← traverse classification_of events
    ok (first_present ("DANGER" ∷ "WARN" ∷ "SAFE" ∷ []) found)

-- The dict `class_counts`.
pub record ClassCounts : Type 0 where
  pub safe : ℕ
  pub warn : ℕ
  pub danger : ℕ

abbrev pub no_counts : ClassCounts
no_counts = record { safe = 0; warn = 0; danger = 0 }

module _ {F : Type 0} where
  -- `if label in class_counts: class_counts[label] += 1`
  abbrev pub count_label : ClassCounts → Value F → ClassCounts
  count_label c v =
      if is_label "SAFE" v
      then record { safe = suc c.safe; warn = c.warn; danger = c.danger }
      else if is_label "WARN" v
      then record { safe = c.safe; warn = suc c.warn; danger = c.danger }
      else if is_label "DANGER" v
      then record { safe = c.safe; warn = c.warn; danger = suc c.danger }
      else c

  unfoldable pub count_classes : ClassCounts → List (Fields F) → Result ClassCounts
  count_classes c [] = ok c
  count_classes c (event ∷ rest) = do
    label ← classification_of event
    count_classes (count_label c label) rest

  -- `e.get("cpm") is not None`
  abbrev pub has_cpm : Fields F → Bool
  has_cpm event = not (is_none (get event "cpm"))

module _ {F : Type 0} ⦃n : Number F⦄ where
  -- `float(e[key])`
  abbrev pub float_at : String → Fields F → Result F
  float_at key event = do v ← index event key; to_float v

  -- [float(e["cpm"]) for e in events if e.get("cpm") is not None]
  unfoldable pub cpm_values : List (Fields F) → Result (List F)
  cpm_values events = traverse (float_at "cpm") (filter has_cpm events)

  -- `max(xs) if xs else None`, and `min`
  abbrev pub max_or_none : List F → Option F
  max_or_none xs = elim (best n.lt (λ x. x) xs) [ ok x ↦ some x | raise e ↦ none ]

  abbrev pub min_or_none : List F → Option F
  min_or_none xs = elim (best (λ a b. n.lt b a) (λ x. x) xs) [ ok x ↦ some x | raise e ↦ none ]

  -- `round(sum(xs) / len(xs), digits) if xs else None`
  abbrev pub mean_or_none : List F → ℕ → Option F
  mean_or_none [] digits = none
  mean_or_none (x ∷ xs) digits = some (n.round (mean_of (x ∷ xs)) digits)

  abbrev pub counts_value : ClassCounts → Value F
  counts_value c = obj (
      field "SAFE" (num (n.of_ℕ c.safe))
        (field "WARN" (num (n.of_ℕ c.warn)) (field "DANGER" (num (n.of_ℕ c.danger)) end)))

  -- The blob of a window from its statistics.
  abbrev pub blob_of :
      String → F → String → String → ℕ → List F → ClassCounts → Value F → List F → List F → Fields F
  blob_of geohash precision window_start window_end count cpms counts worst latitudes longitudes =
      field "geohash" (str geohash) (
        field "precision" (num precision) (
          field "window_start" (str window_start) (
            field "window_end" (str window_end) (
              field "count" (num (n.of_ℕ count)) (
                field "cpm_avg" (optional (mean_or_none cpms 4)) (
                  field "cpm_max" (optional (max_or_none cpms)) (
                    field "cpm_min" (optional (min_or_none cpms)) (
                      field "class_counts" (counts_value counts) (
                        field "worst_classification" worst (
                          field "centroid_latitude" (optional (mean_or_none latitudes 6)) (
                            field "centroid_longitude" (optional (mean_or_none longitudes 6))
                              end)))))))))))

  unfoldable pub aggregate_bucket :
      List (Fields F) → String → F → String → String → Result (Fields F)
  aggregate_bucket events geohash precision window_start window_end = do
    cpms ← cpm_values events
    counts ← count_classes no_counts events
    latitudes ← traverse (float_at "latitude") events
    longitudes ← traverse (float_at "longitude") events
    worst ← worst_classification events
    ok (
        blob_of geohash precision window_start window_end (length events) cpms counts worst
          latitudes longitudes)

  module _ (encode : F → F → F → String) where
    -- The arguments of pygeohash.encode are the coordinates and the precision.
    unfoldable pub geo_bucket : Value F → Value F → F → Result String
    geo_bucket latitude longitude precision = do
      x ← to_float latitude
      y ← to_float longitude
      ok (encode x y precision)

    unfoldable pub with_geo_bucket : Fields F → F → Result (Fields F)
    unfolding geo_bucket
    with_geo_bucket event precision = do
      latitude ← index event "latitude"
      longitude ← index event "longitude"
      geohash ← geo_bucket latitude longitude precision
      ok (put event "geohash" (str geohash))

  -- GeoBucketWindowFunction.process: the bounds of the window are epoch milliseconds, and `to_iso` is
  -- _millis_to_iso. The precision is the length of the key.
  unfoldable pub process_bucket_window :
      (ℤ → String) → String → ℤ → ℤ → List (Fields F) → Result (Fields F)
  process_bucket_window to_iso key start stop elements =
      aggregate_bucket elements key (n.of_ℕ (text_length key)) (to_iso start) (to_iso stop)
