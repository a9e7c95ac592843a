-- ===== src/Flink/RegionJoin/Latest.antt =====
-- flink-jobs/operators/alert_region_join.py: which blob an alert is joined with.
use radiation_tracking.Prelude.{String, ◌≡◌, refl, Option, none, some, List, [], ◌∷◌, false, str_eq}
use radiation_tracking.Python.{Number, Result, ok, ◌>>=◌, Value, null, obj, Fields}
use radiation_tracking.Flink.RegionJoin.{
  Input, alert, blob, enrich_alert_with_region, latest_region, process_alert, process_blob, run,
}

module _ {F : Type 0} ⦃n : Number F⦄ (loads : String → Result (Value F))
    (dumps : Fields F → String) where
  -- The text of every blob is not empty, and is read back as the blob.
  abbrev pub BlobsReadBack : List (Input F) → Type 0
  BlobsReadBack [] = Unit
  BlobsReadBack (alert a ∷ rest) = BlobsReadBack rest
  BlobsReadBack (blob b ∷ rest) =
      (str_eq (dumps b) "" ≡ false) × (loads (dumps b) ≡ ok (obj b)) × BlobsReadBack rest

  -- Each alert with the summary of the blob that came last before it, or without one.
  unfoldable pub joined : Value F → List (Input F) → Result (List (Fields F))
  joined region [] = ok []
  joined region (alert a ∷ rest) = do
    enriched ← enrich_alert_with_region a region
    more ← joined region rest
    ok (enriched ∷ more)
  joined region (blob b ∷ rest) = joined (obj b) rest

  from :
      (state : Option String) (region : Value F) (inputs : List (Input F))
      → latest_region loads dumps state ≡ ok region
      → BlobsReadBack inputs
      → run loads dumps state inputs ≡ joined region inputs
  unfolding run joined process_alert process_blob
  from state region [] e h = refl
  from state region (alert a ∷ rest) e h = rw (e, from state region rest e h) refl
  from state region (blob b ∷ rest) e h =
      from (some (dumps b)) (obj b) rest (unfold latest_region in rw (h.0, h.1) refl) h.2

  -- If the JSON text of every blob is not empty and reads back as the blob, then however alerts
  -- and blobs of a cell interleave, each alert is yielded at once and in order, with the summary
  -- of the last blob before it, and with none where there was no blob.
  pub run-joined :
      (inputs : List (Input F))
      → BlobsReadBack inputs
      → run loads dumps none inputs ≡ joined null inputs
  unfolding latest_region
  run-joined inputs h = from none null inputs refl h
