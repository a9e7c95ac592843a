-- ===== src/Flink/Tests/Windows.antt =====
-- The windows of the aggregation and of the alerts on concrete events.
use radiation_tracking.Prelude.{String, ◌≡◌, refl, List, [], ◌∷◌, All, Memᴰ, arith, false}
use radiation_tracking.Prelude.Int.{ℤ, pos}
use radiation_tracking.Python.{
  ok, traverse, num, str, Fields, field, end, get, index, item, to_float, tolerate, or_raise,
}
use radiation_tracking.Python.Text.{strip, search_fraction}
use radiation_tracking.Flink.Tests.Samples.{clock, read_integers, read_integers-Order}
use radiation_tracking.Flink.Timestamps.{
  parse_timestamp, to_epoch_millis, pad_fraction, captured_at_millis, or_epoch,
}
use radiation_tracking.Flink.GeoAggregation.{aggregate_bucket, cpm_values, float_at, hash_check}
use radiation_tracking.Flink.GeoAggregation.Counts.{Hashable}
use radiation_tracking.Flink.GeoAggregation.Blob.{aggregate_bucket_lem}
use radiation_tracking.Flink.AlertDetection.{breach_sort_key, breaches_of, detect_sustained_high}
use radiation_tracking.Flink.AlertDetection.Sustained.{
  Window, enough, Outcome, detect_sustained_high_lem,
}

abbrev reading : ℤ → String → String → Fields ℤ
reading cpm classification captured_at = field "cpm" (num cpm) (
    field "classification" (str classification) (
      field "captured_at" (str captured_at)
        (field "latitude" (num (pos 59)) (field "longitude" (num (pos 24)) end))))

abbrev readings : List (Fields ℤ)
readings =
    reading (pos 1200) "DANGER" "T05"
    ∷ reading (pos 40) "SAFE" "T05"
    ∷ reading (pos 1100) "DANGER" "T10"
    ∷ []

hashable : Hashable readings
unfolding hash_check get
hashable = (refl, (refl, (refl, tt)))

cpms : cpm_values readings ≡ ok (pos 1200 ∷ pos 40 ∷ pos 1100 ∷ [])
unfolding cpm_values traverse get index to_float
cpms = refl

coordinates :
    (traverse (float_at "latitude") readings ≡ ok (pos 59 ∷ pos 59 ∷ pos 59 ∷ []))
    × (traverse (float_at "longitude") readings ≡ ok (pos 24 ∷ pos 24 ∷ pos 24 ∷ []))
unfolding traverse index to_float
coordinates = (refl, refl)

aggregate_bucket_lem_example :
    (blob : Fields ℤ) × (top bottom : ℤ) × (aggregate_bucket readings "ud9wr" (pos 5) "T00" "T10"
      ≡ ok blob)
    × (get blob "count" ≡ num (pos 3))
    × (get blob "cpm_max" ≡ num top)
    × (get blob "cpm_min" ≡ num bottom)
    × Memᴰ top (pos 1200 ∷ pos 40 ∷ pos 1100 ∷ [])
    × Memᴰ bottom (pos 1200 ∷ pos 40 ∷ pos 1100 ∷ [])
    × All (λ v. read_integers.lt top v ≡ false) (pos 1200 ∷ pos 40 ∷ pos 1100 ∷ [])
    × All (λ v. read_integers.lt v bottom ≡ false) (pos 1200 ∷ pos 40 ∷ pos 1100 ∷ [])
aggregate_bucket_lem_example =
    aggregate_bucket_lem read_integers-Order readings "ud9wr" (pos 5) "T00" "T10" (pos 1200)
      (pos 40 ∷ pos 1100 ∷ []) (pos 59 ∷ pos 59 ∷ pos 59 ∷ []) (pos 24 ∷ pos 24 ∷ pos 24 ∷ []) cpms
      hashable coordinates.0 coordinates.1

breach_cpms : cpm_values (breaches_of readings) ≡ ok (pos 1200 ∷ pos 1100 ∷ [])
unfolding cpm_values traverse get index to_float
breach_cpms = refl

breach_times :
    traverse (breach_sort_key clock) (breaches_of readings) ≡ ok (pos 300000 ∷ pos 600000 ∷ [])
unfolding traverse get breach_sort_key tolerate captured_at_millis item index parse_timestamp
    to_epoch_millis pad_fraction search_fraction strip or_raise or_epoch
breach_times = refl

two_breaches : Window clock readings 2
unfolding get
two_breaches =
    enough (pos 1200) (pos 1100 ∷ []) (pos 300000 ∷ pos 600000 ∷ []) (omega arith) breach_cpms
      breach_times

detect_sustained_high_lem_example :
    Outcome clock readings 2 two_breaches (detect_sustained_high clock readings "s1" "T00" "T10" 2)
detect_sustained_high_lem_example =
    detect_sustained_high_lem clock read_integers-Order readings "s1" "T00" "T10" 2 (omega arith)
      two_breaches
