-- ===== src/Flink/Tests/Events.antt =====
-- Parsing and classification on concrete messages.
use radiation_tracking.Prelude.{String, ◌≡◌, refl, [], ◌∷◌, if◌then◌else◌, str_eq}
use radiation_tracking.Prelude.Int.{ℤ, pos}
use radiation_tracking.Python.{
  Result, ok, raise, attribute_error, json_decode_error, Tolerated, ◌>>=◌, Value, null, num, str,
  obj, Fields, field, end, get, put, item, index, attribute_get, truthy, to_float,
}
use radiation_tracking.Flink.Tests.Samples.{clock, read_integers, show_integer, parse-show}
use radiation_tracking.Flink.Timestamps.{extract_timestamp}
use radiation_tracking.Flink.Model.{parse_record, deserialize_config, config_from_dict, if_truthy}
use radiation_tracking.Flink.Model.Poison.{parse_record_fails}
use radiation_tracking.Flink.Classifier.{
  classify, label_value, no_thresholds, default_warn_threshold, default_danger_threshold,
  classify_event,
}
use radiation_tracking.Flink.Classifier.Broadcast.{updates, latest, classify_event-updates}

abbrev pub reading : Value ℤ → Fields ℤ
reading captured_at = field "sensor_id" (str "s1") (
    field "captured_at" captured_at (
      field "uploaded_at" (str "T05") (
        field "latitude" (num (pos 59))
          (field "longitude" (num (pos 24)) (field "cpm" (num (pos 40)) end)))))

abbrev config : Fields ℤ
config = field "cpm_warn_threshold" (num (pos 30)) (field "cpm_danger_threshold" (num (pos 50)) end)

abbrev loads : String → Result (Value ℤ)
loads s =
    if str_eq s "reading"
    then ok (obj (reading (str "T00")))
    else if str_eq s "number"
    then ok (obj (reading (num (pos 7))))
    else if str_eq s "config"
    then ok (obj config)
    else if str_eq s "null"
    then ok null
    else raise json_decode_error

parse_record_fails_example :
    (parse_record clock loads "number" ≡ raise attribute_error)
    × (extract_timestamp clock loads "number" ≡ raise attribute_error)
unfolding item
parse_record_fails_example =
    parse_record_fails clock loads "number" (obj (reading (num (pos 7)))) (str "s1") (num (pos 7))
      refl refl refl refl

tame_config : Tolerated (deserialize_config clock loads "config")
unfolding deserialize_config config_from_dict attribute_get item index get if_truthy truthy to_float
tame_config = tt

tame_oops : Tolerated (deserialize_config clock loads "oops")
unfolding deserialize_config
tame_oops = tt

classify_event-updates_example :
    (do
      state ← updates clock loads no_thresholds ("config" ∷ "oops" ∷ [])
      classify_event state (reading (str "T00")))
    ≡ (do
      let now =
          latest clock loads
            (default_warn_threshold, default_danger_threshold)
            ("config" ∷ "oops" ∷ [])
      class ← classify (get (reading (str "T00")) "cpm") now.0 now.1
      ok (put (reading (str "T00")) "classification" (label_value class)))
classify_event-updates_example =
    classify_event-updates clock loads parse-show ("config" ∷ "oops" ∷ []) (reading (str "T00"))
      (tame_config, (tame_oops, tt))
