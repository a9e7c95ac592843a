-- ===== src/Flink/RollingStats/History.antt =====
-- flink-jobs/operators/rolling_stats.py: the trimmed series against the whole history of a cell, and
-- what the enrichment leaves of a blob.
use radiation_tracking.Prelude.{
  ℕ, ◌-◌, ◌≤◌, String, ◌≡◌, ◌≢◌, refl, subst, append-nil, sym, Bool, false, Option, none, some,
  List, [], ◌∷◌, ◌++◌, slice_last, arith, eq_iff, if◌then◌else◌, Bool-cases, inl, inr, drop-nil,
}
use radiation_tracking.Python.{
  Number, Result, ok, Result-cases, ◌>>=◌, bool, Fields, get, put, get-put, is_none, to_float,
}
use radiation_tracking.Flink.Series.{SeriesJson, RoundTrip, stored, push-slice_last, stored-dumps}
use radiation_tracking.Flink.RollingStats.{
  enrich_blob, process_element, update, run, flag_anomaly, rolling_average, zscore, with_stats,
  optional,
}

module _ {F : Type 0} ⦃n : Number F⦄ where
  with_stats-get :
      (blob : Fields F) (k : String) (rolling z : Option F) (anomaly : Bool)
      → k ≢ "rolling_cpm_avg"
      → k ≢ "cpm_zscore"
      → k ≢ "anomaly"
      → get (with_stats blob rolling z anomaly) k ≡ get blob k
  with_stats-get blob k rolling z anomaly h1 h2 h3 =
      let one = put blob "rolling_cpm_avg" (optional rolling) in
      let two = put one "cpm_zscore" (optional z) in
      ground (
        arith,
        eq_iff "anomaly" k,
        eq_iff "cpm_zscore" k,
        eq_iff "rolling_cpm_avg" k,
        get-put two "anomaly" k (bool anomaly),
        get-put one "cpm_zscore" k (optional z),
        get-put blob "rolling_cpm_avg" k (optional rolling),
      )

  -- The enrichment is additive: it changes no field but the three that it sets.
  pub enrich_blob-get :
      (blob enriched : Fields F) (baseline : List F) (threshold : F) (k : String)
      → enrich_blob blob baseline threshold ≡ ok enriched
      → k ≢ "rolling_cpm_avg"
      → k ≢ "cpm_zscore"
      → k ≢ "anomaly"
      → get enriched k ≡ get blob k
  unfolding enrich_blob
  enrich_blob-get blob enriched baseline threshold k h h1 h2 h3 =
      elim (Bool-cases (is_none (get blob "cpm_avg"))) [
        | inl e ↦
            let one : with_stats blob none none false ≡ enriched = ground (arith, h, e) in
            subst (λ d. get d k ≡ get blob k) one (with_stats-get blob k none none false h1 h2 h3)
        | inr e ↦ elim (Result-cases (to_float (get blob "cpm_avg"))) [
          | inr (x, ex) ↦ absurd (ground (arith, h, e, ex))
          | inl (cpm_avg, ec) ↦
              let rolling = rolling_average (baseline ++ cpm_avg ∷ []) in
              let z = zscore baseline cpm_avg in
              let one : with_stats blob rolling z (flag_anomaly z threshold) ≡ enriched =
                ground (arith, h, e, ec) in
              subst (λ d. get d k ≡ get blob k) one
                (with_stats-get blob k rolling z (flag_anomaly z threshold) h1 h2 h3)
        ]
      ]

  -- The average of a blob, if it has one.
  unfoldable pub average : Fields F → Result (List F)
  average blob =
      if is_none (get blob "cpm_avg")
      then ok []
      else do x ← to_float (get blob "cpm_avg"); ok (x ∷ [])

  module _ ⦃json : SeriesJson F⦄ (k : ℕ) (threshold : F) where
    -- The blobs of a cell, each enriched by the last `k` averages of all those before it.
    unfoldable pub scored : List F → List (Fields F) → Result (List (Fields F))
    scored history [] = ok []
    scored history (blob ∷ rest) = do
      enriched ← enrich_blob blob (slice_last k history) threshold
      found ← average blob
      more ← scored (history ++ found) rest
      ok (enriched ∷ more)

    run-from :
        (laws : RoundTrip json)
        → 1 ≤ k
        → (state : Option String) (history : List F) (blobs : List (Fields F))
        → stored state ≡ slice_last k history
        → run k threshold state blobs ≡ scored history blobs
    unfolding run scored process_element update average
    run-from laws pos state history [] h = refl
    run-from laws pos state history (blob ∷ rest) h =
        rw h (elim (Result-cases (enrich_blob blob (slice_last k history) threshold)) [
          | inr (x, ex) ↦ rw ex refl
          | inl (enriched, ee) ↦ rw ee (elim (Bool-cases (is_none (get blob "cpm_avg"))) [
            | inl e ↦
                rw (e, run-from laws pos state (history ++ []) rest (rw (append-nil history) h))
                  refl
            | inr e ↦ rw e (elim (Result-cases (to_float (get blob "cpm_avg"))) [
              | inr (x, ex) ↦ rw ex refl
              | inl (x, ec) ↦
                  rw
                    (
                      ec,
                      push-slice_last history x k pos,
                      run-from laws pos (some (json.dumps (slice_last k (history ++ x ∷ []))))
                          (history ++ x ∷ []) rest
                          (stored-dumps laws (slice_last k (history ++ x ∷ []))),
                    )
                    refl
            ])
          ])
        ])

    -- If the stored text of a series reads back as the series, and the series holds at least one
    -- average, the operator yields each blob of a cell in order, scored against exactly the last
    -- window_count averages before it (fewer at the start), where blobs without one count for
    -- none.
    pub run-scored :
        (laws : RoundTrip json) (blobs : List (Fields F))
        → 1 ≤ k
        → run k threshold none blobs ≡ scored [] blobs
    unfolding stored
    run-scored laws blobs pos = run-from laws pos none [] blobs (sym (drop-nil (0 - k)))
