-- ===== src/Backend/History/Endpoints.antt =====
-- The answers of the history endpoints, from the start of the service on.
use radiation_tracking.Prelude.{
  ℕ, zero, suc, ◌+◌, max, ◌≡◌, refl, Bool, true, false, ◌&&◌, ◌||◌, Option, none, some,
  if◌then◌else◌, Bool-cases, inl, inr,
}
use radiation_tracking.Prelude.Int.{ℤ, pos_part}
use radiation_tracking.Python.{Number, Result, ok, raise}
use radiation_tracking.Backend.History.{
  BBox, Clauses, HistoryResponse, unprocessable, unavailable, rows, bbox, query_of, answer,
  answer_box, get_history, limit_fits, coordinates_fit, get_timeseries, get_hotspots, pool_attempts,
  connect_pool,
}

abbrev pub is_some {ℓ} : {A : Type ℓ} → Option A → Bool
is_some none = false
is_some (some a) = true

abbrev of_result {ℓ} : {A : Type ℓ} → Result A → Option A
of_result (ok a) = some a
of_result (raise e) = none

module _ (up : ℕ → Bool) where
  -- Whether one of the attempts succeeds.
  abbrev pub any_up : ℕ → ℕ → Bool
  any_up first zero = false
  any_up first (suc count) = up first || any_up (first + 1) count

  pool_attempts_lem :
      (attempts attempt left : ℕ)
      → is_some (pool_attempts up attempts attempt left).0 ≡ any_up attempt left
  unfolding pool_attempts
  pool_attempts_lem attempts attempt zero = refl
  pool_attempts_lem attempts attempt (suc left) = elim (Bool-cases (up attempt)) [
    | inl e ↦ rw e refl
    | inr e ↦ rw e (pool_attempts_lem attempts (attempt + 1) left)
  ]

  connect_pool_lem :
      (enabled : Bool) (retry_attempts : ℤ)
      → is_some (connect_pool up enabled retry_attempts).0
        ≡ (enabled && any_up 1 (max 1 (pos_part retry_attempts)))
  unfolding connect_pool
  connect_pool_lem false retry_attempts = refl
  connect_pool_lem true retry_attempts = pool_attempts_lem _ 1 (max 1 (pos_part retry_attempts))

module _ {F : Type 0} ⦃n : Number F⦄ where
  -- No bounds, or all four in order.
  abbrev pub well_formed : Option F → Option F → Option F → Option F → Option (Option (BBox F))
  well_formed none none none none = some none
  well_formed (some s) (some n') (some w) (some e) =
      if n.lt s n' && n.lt w e
      then some (some (record { south = s; north = n'; west = w; east = e }))
      else none
  well_formed _ _ _ _ = none

  bbox-well_formed : (a b c d : Option F) → of_result (bbox a b c d) ≡ well_formed a b c d
  unfolding bbox
  bbox-well_formed none none none none = refl
  bbox-well_formed (some a) (some b) (some c) (some d) = elim (Bool-cases (n.lt a b)) [
    | inr e ↦ rw e refl
    | inl e ↦ elim (Bool-cases (n.lt c d)) [ inr e' ↦ rw (e, e') refl | inl e' ↦ rw (e, e') refl ]
  ]
  bbox-well_formed none none none (some d) = refl
  bbox-well_formed none none (some c) d = refl
  bbox-well_formed none (some b) c d = refl
  bbox-well_formed (some a) none c d = refl
  bbox-well_formed (some a) (some b) none d = refl
  bbox-well_formed (some a) (some b) (some c) none = refl

module _ {F D R : Type 0} ⦃n : Number F⦄ (fetch : Clauses F D → Option R) where
  abbrev fetched : Option R → HistoryResponse R
  fetched none = unavailable
  fetched (some r) = rows r

  -- 422 for a box that is not well-formed, and else 503 unless the archive is connected and the query
  -- returns.
  abbrev pub expected :
      Option (Option (BBox F)) → Bool → Option D → Option D → ℕ → HistoryResponse R
  expected none connected start end limit = unprocessable
  expected (some box) false start end limit = unavailable
  expected (some box) true start end limit = fetched (fetch (query_of box start end limit))

  answer_box-expected :
      (connected : Bool) (start end : Option D) (limit : ℕ) (box : Result (Option (BBox F)))
      → answer_box fetch connected start end limit box
        ≡ expected (of_result box) connected start end limit
  unfolding answer_box answer
  answer_box-expected connected start end limit (raise e) = refl
  answer_box-expected false start end limit (ok box) = refl
  answer_box-expected true start end limit (ok box) = found (fetch (query_of box start end limit))
    where
      found :
          (o : Option R)
          → (let r : HistoryResponse R = elim o [ none ↦ unavailable | some r ↦ rows r ] in r)
            ≡ fetched o
      found none = refl
      found (some r) = refl

  handler-expected :
      (up : ℕ → Bool) (enabled : Bool) (retry_attempts : ℤ) (a b c d : Option F)
      (start end : Option D) (limit : ℕ)
      → get_history fetch
          (is_some (connect_pool up enabled retry_attempts).0)
          a
          b
          c
          d
          start
          end
          limit
        ≡ expected
            (well_formed a b c d)
            (enabled && any_up up 1 (max 1 (pos_part retry_attempts)))
            start
            end
            limit
  unfolding get_history
  handler-expected up enabled retry_attempts a b c d start end limit =
      rw (← connect_pool_lem up enabled retry_attempts, ← bbox-well_formed a b c d)
        (answer_box-expected _ start end limit (bbox a b c d))

  checked :
      (valid connected : Bool) (box : Option (Option (BBox F))) (start end : Option D) (limit : ℕ)
      (found : HistoryResponse R)
      → found ≡ expected box connected start end limit
      → (if valid then found else unprocessable)
        ≡ expected (if valid then box else none) connected start end limit
  checked true connected box start end limit found e = e
  checked false connected box start end limit found e = refl

  -- Once the service has started, the two endpoints answer 422 to a latitude beyond 90 degrees or a
  -- longitude beyond 180, to a limit of hotspots that is not from 1 to 100, and to a box that has not
  -- all or none of its bounds, or two out of order, whether the archive is up or not; else 503 if the
  -- archive is disabled, if none of the attempts to reach it succeeded, of which there is at least
  -- one, or if the query fails; and else the rows of the query for the box and the span that were
  -- asked for, and the limit asked for or configured.
  pub get_history-expected :
      (up : ℕ → Bool) (enabled : Bool) (retry_attempts : ℤ) (a b c d : Option F)
      (start end : Option D) (max_rows : ℕ) (limit : ℤ)
      → let available = is_some (connect_pool up enabled retry_attempts).0 in
        let connected = enabled && any_up up 1 (max 1 (pos_part retry_attempts)) in
        (get_timeseries fetch available a b c d start end max_rows
          ≡ expected
              (if coordinates_fit a b c d then well_formed a b c d else none)
              connected
              start
              end
              max_rows)
        × (get_hotspots fetch available a b c d start end limit
            ≡ expected
                (if coordinates_fit a b c d && limit_fits limit then well_formed a b c d else none)
                connected
                start
                end
                (pos_part limit))
  unfolding get_timeseries get_hotspots
  get_history-expected up enabled retry_attempts a b c d start end max_rows limit = (
    checked _ _ (well_formed a b c d) start end max_rows _
        (handler-expected up enabled retry_attempts a b c d start end max_rows),
    checked _ _ (well_formed a b c d) start end (pos_part limit) _
        (handler-expected up enabled retry_attempts a b c d start end (pos_part limit)),
  )
