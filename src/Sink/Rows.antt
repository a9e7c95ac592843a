-- ===== src/Sink/Rows.antt =====
-- The row mapping of aggregated_sink/db.py and `_decode` of aggregated_sink/consumer.py.
use radiation_tracking.Prelude.{not, ◌||◌, List, [], ◌∷◌, if◌then◌else◌}
use radiation_tracking.Python.{
  Number, Value, obj, Fields, end, get, truthy, is_none, Result, ok, raise, type_error, value_error,
  json_decode_error, unicode_decode_error, ◌>>=◌,
}

-- A tuple in the order of COLUMNS.
pub record Row (F : Type 0) : Type 0 where
  pub geohash : Value F
  pub window_start : Value F
  pub window_end : Value F
  pub precision : Value F
  pub count : Value F
  pub cpm_avg : Value F
  pub cpm_max : Value F
  pub cpm_min : Value F
  pub safe_count : Value F
  pub warn_count : Value F
  pub danger_count : Value F
  pub worst_classification : Value F
  pub centroid_latitude : Value F
  pub centroid_longitude : Value F
  pub rolling_cpm_avg : Value F
  pub cpm_zscore : Value F
  pub anomaly : Value F

module _ {F : Type 0} where
  -- `class_counts = record.get("class_counts") or {}`, and `{}` where that is no dict.
  unfoldable pub class_counts_of : Value F → Fields F
  class_counts_of (obj d) = d
  class_counts_of _ = end

  unfoldable pub row_from : Fields F → Row F
  unfolding class_counts_of
  row_from record_fields =
      let class_counts = class_counts_of (get record_fields "class_counts") in
      record {
        geohash = get record_fields "geohash";
        window_start = get record_fields "window_start";
        window_end = get record_fields "window_end";
        precision = get record_fields "precision";
        count = get record_fields "count";
        cpm_avg = get record_fields "cpm_avg";
        cpm_max = get record_fields "cpm_max";
        cpm_min = get record_fields "cpm_min";
        safe_count = get class_counts "SAFE";
        warn_count = get class_counts "WARN";
        danger_count = get class_counts "DANGER";
        worst_classification = get record_fields "worst_classification";
        centroid_latitude = get record_fields "centroid_latitude";
        centroid_longitude = get record_fields "centroid_longitude";
        rolling_cpm_avg = get record_fields "rolling_cpm_avg";
        cpm_zscore = get record_fields "cpm_zscore";
        anomaly = get record_fields "anomaly";
      }

  -- `except ValueError`, of which the decode errors are subclasses.
  unfoldable pub skip_value_error : Result (Row F) → Result (List (Row F)) → Result (List (Row F))
  skip_value_error (ok row) rest = do rows ← rest; ok (row ∷ rows)
  skip_value_error (raise value_error) rest = rest
  skip_value_error (raise json_decode_error) rest = rest
  skip_value_error (raise unicode_decode_error) rest = rest
  skip_value_error (raise e) rest = raise e

  -- `except (json.JSONDecodeError, TypeError)`
  unfoldable pub skip_non_json :
      Result (Value F) → Result (List (Value F)) → Result (List (Value F))
  skip_non_json (ok v) rest = do records ← rest; ok (v ∷ records)
  skip_non_json (raise json_decode_error) rest = rest
  skip_non_json (raise type_error) rest = rest
  skip_non_json (raise e) rest = raise e

module _ {F : Type 0} ⦃n : Number F⦄ where
  unfoldable pub record_to_row : Value F → Result (Row F)
  unfolding row_from
  record_to_row (obj d) =
      if not (truthy (get d "geohash"))
        || not (truthy (get d "window_start"))
        || is_none (get d "count")
      then raise value_error
      else ok (row_from d)
  record_to_row _ = raise value_error

  unfoldable pub build_rows : List (Value F) → Result (List (Row F))
  unfolding skip_value_error
  build_rows [] = ok []
  build_rows (v ∷ records) = skip_value_error (record_to_row v) (build_rows records)

module _ {F T : Type 0} (loads : T → Result (Value F)) where
  -- `_decode`
  unfoldable pub decode : List T → Result (List (Value F))
  unfolding skip_non_json
  decode [] = ok []
  decode (raw ∷ values) = skip_non_json (loads raw) (decode values)
