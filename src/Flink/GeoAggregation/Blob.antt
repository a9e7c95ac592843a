-- ===== src/Flink/GeoAggregation/Blob.antt =====
-- flink-jobs/operators/geo_aggregation.py: the blob of a window of well-formed events.
use radiation_tracking.Prelude.{
  String, ◌≡◌, refl, false, List, ◌∷◌, All, Memᴰ, length, arith, Bool-cases, inl, inr,
}
use radiation_tracking.Python.{Number, Order, ok, traverse, num, Fields, get}
use radiation_tracking.Python.Extrema.{best_from, best_from-All, best_from-Memᴰ}
use radiation_tracking.Flink.GeoAggregation.{cpm_values, float_at, blob_of, aggregate_bucket}
use radiation_tracking.Flink.GeoAggregation.Counts.{
  Hashable, tallies, worst, count_classes-worst_classification,
}

module _ {F : Type 0} ⦃n : Number F⦄ (laws : Order n) where
  pub lt_irrefl : (x : F) → n.lt x x ≡ false
  lt_irrefl x = elim (Bool-cases (n.lt x x)) [
    | inl h ↦ absurd (ground (arith, laws.le_of_lt x x, laws.not_le_of_lt x x))
    | inr h ↦ h
  ]

  -- A window whose events have float coordinates, classifications that can be hashed and float
  -- readings or none, at least one, is reduced to a blob that counts the events and whose cpm_max
  -- and cpm_min are readings that no reading exceeds and that exceed none.
  pub aggregate_bucket_lem :
      (events : List (Fields F)) (geohash : String) (precision : F)
      (window_start window_end : String) (x : F) (xs latitudes longitudes : List F)
      → cpm_values events ≡ ok (x ∷ xs)
      → Hashable events
      → traverse (float_at "latitude") events ≡ ok latitudes
      → traverse (float_at "longitude") events ≡ ok longitudes
      → (blob : Fields F) × (top bottom : F) × (aggregate_bucket events geohash precision
            window_start window_end
          ≡ ok blob)
        × (get blob "count" ≡ num (n.of_ℕ (length events)))
        × (get blob "cpm_max" ≡ num top)
        × (get blob "cpm_min" ≡ num bottom)
        × Memᴰ top (x ∷ xs)
        × Memᴰ bottom (x ∷ xs)
        × All (λ v. n.lt top v ≡ false) (x ∷ xs)
        × All (λ v. n.lt v bottom ≡ false) (x ∷ xs)
  unfolding aggregate_bucket get
  aggregate_bucket_lem events geohash precision window_start window_end x xs latitudes longitudes hc
        hh hlat hlon =
      let classes = count_classes-worst_classification events hh in
      (
        blob_of geohash precision window_start window_end (length events) (x ∷ xs) (tallies events)
            (worst events) latitudes longitudes,
        best_from n.lt (λ v. v) x xs,
        best_from (λ a b. n.lt b a) (λ v. v) x xs,
        rw (hc, classes.0, hlat, hlon, classes.1) refl,
        refl,
        refl,
        refl,
        best_from-Memᴰ n.lt (λ v. v) x xs,
        best_from-Memᴰ (λ a b. n.lt b a) (λ v. v) x xs,
        best_from-All n.lt (λ v. v) lt_irrefl laws.lt_trans x xs,
        best_from-All (λ a b. n.lt b a) (λ v. v) lt_irrefl (λ a b c h k. laws.lt_trans c b a k h) x
            xs,
      )
