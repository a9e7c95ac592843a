-- ===== src/Flink/Trend/History.antt =====
-- flink-jobs/operators/trend_detector.py: the trimmed series against the whole history of a cell.
use radiation_tracking.Prelude.{
  ℕ, ◌*◌, ◌+◌, ◌-◌, ◌≤◌, String, ◌≡◌, refl, ◌∙◌, sym, subst, true, Option, none, some, List, [],
  ◌∷◌, ◌++◌, length, slice_last, arith, if◌then◌else◌, Bool-cases, inl, inr, slice_last-slice_last,
  length-append, length-drop, drop-nil,
}
use radiation_tracking.Python.{
  Number, Result, ok, raise, Result-cases, ◌>>=◌, Fields, get, index, is_none, to_float,
}
use radiation_tracking.Flink.Series.{SeriesJson, RoundTrip, stored, push-slice_last, stored-dumps}
use radiation_tracking.Flink.Trend.{is_rising, build_trend_alert, detect, process_element, run}

module _ {F : Type 0} ⦃n : Number F⦄ where
  is_rising-slice_last :
      (history : List F) (k : ℕ) (min_delta : F)
      → is_rising (slice_last k history) k min_delta ≡ is_rising history k min_delta
  unfolding is_rising
  is_rising-slice_last history k min_delta =
      ground (arith, slice_last-slice_last k k history, length-drop (length history - k) history)

  module _ ⦃json : SeriesJson F⦄ (k : ℕ) (min_delta : F) where
    -- The alerts of a cell, from all averages since its last alert: one is due at each blob after
    -- which the last `k` of them are rising.
    unfoldable pub alerts : List F → List (Fields F) → Result (List (Fields F))
    alerts history [] = ok []
    alerts history (blob ∷ rest) =
        let same = alerts history rest in
        if is_none (get blob "cpm_avg") then same else do
          cpm_avg ← to_float (get blob "cpm_avg")
          let longer = history ++ cpm_avg ∷ []
          let reset = alerts [] rest
          let kept = alerts longer rest
          if is_rising longer k min_delta
              then (do
                geohash ← index blob "geohash"
                more ← reset
                ok (build_trend_alert geohash (slice_last k longer) blob ∷ more))
              else kept

    -- A stored series that stands for the last `k` averages of the history.
    Stands : Option String → List F → Type 0
    Stands state history = stored state ≡ slice_last k history

    append-ok : (r : Result (List (Fields F))) → (do more ← r; ok ([] ++ more)) ≡ r
    append-ok (ok x) = refl
    append-ok (raise e) = refl

    run-from :
        (laws : RoundTrip json)
        → 1 ≤ k
        → (state : Option String) (history : List F) (blobs : List (Fields F))
        → Stands state history
        → run k min_delta state blobs ≡ alerts history blobs
    unfolding run alerts process_element detect Stands stored
    run-from laws pos state history [] h = refl
    run-from laws pos state history (blob ∷ rest) h =
        elim (Bool-cases (is_none (get blob "cpm_avg"))) [
          | inl e ↦ rw (e, run-from laws pos state history rest h) (append-ok (alerts history rest))
          | inr e ↦ rw e (elim (Result-cases (to_float (get blob "cpm_avg"))) [
            | inr (x, ex) ↦ rw ex refl
            | inl (cpm_avg, ec) ↦
                rw
                  (
                    ec,
                    h,
                    push-slice_last history cpm_avg k pos,
                    is_rising-slice_last (history ++ cpm_avg ∷ []) k min_delta,
                  )
                  (elim (Bool-cases (is_rising (history ++ cpm_avg ∷ []) k min_delta)) [
                    | inl er ↦ rw er (elim (Result-cases (index blob "geohash")) [
                      | inr (x, ex) ↦ rw ex refl
                      | inl (geohash, eg) ↦
                          rw (eg, run-from laws pos none [] rest (sym (drop-nil (0 - k)))) refl
                    ])
                    | inr er ↦
                        rw
                          (
                            er,
                            run-from laws pos
                                (some (json.dumps (slice_last k (history ++ cpm_avg ∷ []))))
                                (history ++ cpm_avg ∷ []) rest
                                (stored-dumps laws (slice_last k (history ++ cpm_avg ∷ []))),
                          )
                          (append-ok (alerts (history ++ cpm_avg ∷ []) rest))
                  ])
          ])
        ]

    -- If the stored text of a series reads back as the series, and the series holds at least one
    -- average, the trend detector yields for any blobs of a cell, from the empty state, exactly
    -- the alerts that are due by the whole history since the last alert, and raises where those
    -- do: trimming forgets nothing that counts.
    pub run-alerts :
        (laws : RoundTrip json) (blobs : List (Fields F))
        → 1 ≤ k
        → run k min_delta none blobs ≡ alerts [] blobs
    unfolding Stands stored
    run-alerts laws blobs pos = run-from laws pos none [] blobs (sym (drop-nil (0 - k)))

    rising-length : (xs : List F) → is_rising xs k min_delta ≡ true → 2 ≤ k × k ≤ length xs
    unfolding is_rising
    rising-length xs h = ground (arith, h)

    alerts-length :
        (history : List F) (blobs found : List (Fields F))
        → alerts history blobs ≡ ok found
        → length found * k ≤ length history + length blobs
    unfolding alerts
    alerts-length history [] found h = ground arith
    alerts-length history (blob ∷ rest) found h = elim (Bool-cases (is_none (get blob "cpm_avg"))) [
      | inl e ↦
          let quiet : alerts history rest ≡ ok found = rw e at h in
          omega (arith, alerts-length history rest found quiet)
      | inr e ↦ elim (Result-cases (to_float (get blob "cpm_avg"))) [
        | inr (x, ex) ↦
            let failed : raise x ≡ ok found = rw (e, ex) at h in absurd (ground (arith, failed))
        | inl (cpm_avg, ec) ↦ elim (Bool-cases (is_rising (history ++ cpm_avg ∷ []) k min_delta)) [
          | inl er ↦
              let due : (do
                geohash ← index blob "geohash"
                more ← alerts [] rest
                ok (build_trend_alert geohash (slice_last k (history ++ cpm_avg ∷ [])) blob ∷ more))
                  ≡ ok found =
                rw (e, ec, er) at h in
              elim (Result-cases (index blob "geohash")) [
                | inr (x, ex) ↦ absurd (ground (arith, due, ex))
                | inl (geohash, eg) ↦ elim (Result-cases (alerts [] rest)) [
                  | inr (x, ex) ↦ absurd (ground (arith, due, ex, eg))
                  | inl (more, em) ↦
                      let one : build_trend_alert geohash (slice_last k (history ++ cpm_avg ∷ []))
                              blob
                            ∷ more
                          ≡ found =
                        ground (arith, due, eg, em) in
                      subst (λ l. length l * k ≤ length history + length (blob ∷ rest)) one
                        (omega (
                          arith,
                          alerts-length [] rest more em,
                          length-append history (cpm_avg ∷ []),
                          rising-length (history ++ cpm_avg ∷ []) er,
                        ))
                ]
              ]
          | inr er ↦
              let later : alerts (history ++ cpm_avg ∷ []) rest ≡ ok found = rw (e, ec, er) at h in
              omega (
                arith,
                length-append history (cpm_avg ∷ []),
                alerts-length (history ++ cpm_avg ∷ []) rest found later,
              )
        ]
      ]
    ]

    -- With `k` the number of windows, the operator yields for any blobs of a cell at most one alert
    -- per `k` blobs.
    pub length-run :
        (laws : RoundTrip json) (blobs found : List (Fields F))
        → 1 ≤ k
        → run k min_delta none blobs ≡ ok found
        → length found * k ≤ length blobs
    length-run laws blobs found pos h =
        omega (arith, alerts-length [] blobs found (sym (run-alerts laws blobs pos) ∙ h))
