-- ===== src/Sink/Consumer/Once.antt =====
-- Redelivery loses nothing and leaves nothing behind: the table against the log.
use radiation_tracking.Prelude.{
  ℕ, ◌+◌, ◌≤◌, min, ◌≡◌, refl, sym, ap, ◌∙◌, subst, inl, inr, Bool, true, Option, none, List, [],
  ◌∷◌, length, take, drop, arith, Bool-cases, length-take, length-drop,
}
use radiation_tracking.Python.{Number, Value, Result, ok, Result-cases}
use radiation_tracking.Sink.Rows.{Row}
use radiation_tracking.Sink.Consumer.{
  Sink, BatchEvent, batch, killed_before_commit, killed_before_upsert, upsert_batch, write_batch,
  poll, step, run, no_values,
}
use radiation_tracking.Sink.Consumer.Messages.{Loads, rows_of, decode-build_rows}
use radiation_tracking.Sink.Consumer.Newest.{
  newest, or_older, FromPrefix, upsert-FromPrefix, take-length-take, take-all,
}

abbrev pub start : {DB : Type 0} → DB → Sink DB
start table = record { table = table; position = 0; committed = 0 }

module _ {F K T DB : Type 0} ⦃n : Number F⦄ (loads : T → Result (Value F))
    (execute_values : DB → List (Row F) → Result DB) (same_key : Row F → K → Bool)
    (find : DB → K → Option (Row F)) where
  -- A statement that succeeds leaves the last row of each key, and the old one where it has none.
  abbrev pub Upserts : Type 0
  Upserts =
      (table table' : DB) (rows : List (Row F)) (k : K)
      → execute_values table rows ≡ ok table'
      → find table' k ≡ or_older (newest same_key k rows) (find table k)

  module _ (loaded : Loads loads) (upserts : Upserts) where
    find-upsert_batch :
        (table table' : DB) (rows : List (Row F)) (k : K) (w : ℕ)
        → upsert_batch loads execute_values table rows ≡ ok (w, table')
        → find table' k ≡ or_older (newest same_key k rows) (find table k)
    unfolding upsert_batch
    find-upsert_batch table table' [] k w h = let e : table ≡ table' = ground arith in rw e refl
    find-upsert_batch table table' (row ∷ rows) k w h =
        elim (Result-cases (execute_values table (row ∷ rows))) [
          | inr (x, e) ↦ absurd (ground arith)
          | inl (t, e) ↦
              let same : t ≡ table' = ground arith in
              upserts table table' (row ∷ rows) k (e ∙ ap ok same)
        ]

    find-write :
        (table table' : DB) (values : List T) (k : K) (w : ℕ)
        → write_batch loads execute_values table values ≡ ok (w, table')
        → find table' k ≡ or_older (newest same_key k (rows_of loads values)) (find table k)
    unfolding write_batch
    find-write table table' values k w h =
        let (records, hd, hb) = decode-build_rows loads loaded values in
        find-upsert_batch table table' (rows_of loads values) k w (rw (hd, hb) at h)

    module _ (batch_size : ℕ) (log : List T) where
      -- Between two batches the process stands at the committed offset, and each row is the newest of
      -- its key in some prefix of the log that is no shorter than what is committed.
      abbrev pub Holds : Sink DB → Type 0
      Holds w =
          (w.position ≡ w.committed)
          × (w.committed ≤ length log)
          × ((k : K) → FromPrefix same_key loads log w.committed k (find w.table k))

      polled :
          (available : ℕ) (w : Sink DB)
          → w.position ≡ w.committed
          → take (length (poll batch_size log available w)) (drop w.committed log)
            ≡ poll batch_size log available w
      unfolding poll
      polled available w at_offset =
          rw at_offset (take-length-take (min available batch_size) (drop w.committed log))

      polled_within :
          (available : ℕ) (w : Sink DB)
          → Holds w
          → w.committed + length (poll batch_size log available w) ≤ length log
      unfolding poll
      polled_within available w h = omega (
        arith,
        length-take (min available batch_size) (drop w.position log),
        length-drop w.position log,
        h.0,
        h.1,
      )

      -- What the table holds once the batch is written.
      written :
          (available written_rows : ℕ) (w : Sink DB) (table : DB)
          → Holds w
          → write_batch loads execute_values w.table (poll batch_size log available w)
            ≡ ok (written_rows, table)
          → (k : K)
          → FromPrefix same_key loads log
              (w.committed + length (poll batch_size log available w))
              k
              (find table k)
      written available written_rows w table h done k =
          let values = poll batch_size log available w in
          let grown =
            upsert-FromPrefix same_key loads log w.committed (length values) k (find w.table k)
              (polled_within available w h) (h.2 k) in
          subst (FromPrefix same_key loads log (w.committed + length values) k)
            (ap (λ l. or_older (newest same_key k (rows_of loads l)) (find w.table k))
                (polled available w h.0)
              ∙ sym (find-write w.table table values k written_rows done))
            grown

      longer :
          (c d : ℕ) (k : K) (row : Option (Row F))
          → FromPrefix same_key loads log (c + d) k row
          → FromPrefix same_key loads log c k row
      longer c d k row (q, above, below, e) = (q, omega arith, below, e)

      step-Holds :
          (w : Sink DB) (e : BatchEvent)
          → Holds w
          → Holds (step loads execute_values batch_size log w e)
      unfolding step
      step-Holds w killed_before_upsert h = (refl, h.1, h.2)
      step-Holds w (killed_before_commit available) h =
          elim (Result-cases
            (write_batch loads execute_values w.table (poll batch_size log available w))) [
              | inr (x, e) ↦ rw e (refl, h.1, h.2)
              | inl ((count, table), e) ↦ rw e (
                refl,
                h.1,
                λ k. longer _ _ k (find table k) (written available count w table h e k),
              )
            ]
      step-Holds w (batch available) h =
          elim (Bool-cases (no_values (poll batch_size log available w))) [
            | inl none_left ↦
                rw none_left (
                  empty_poll (poll batch_size log available w) none_left w.position ∙ h.0,
                  h.1,
                  h.2,
                )
            | inr some_left ↦
                elim (Result-cases
                  (write_batch loads execute_values w.table (poll batch_size log available w))) [
                    | inr (x, e) ↦ rw (some_left, e) (refl, h.1, h.2)
                    | inl ((count, table), e) ↦
                        rw (some_left, e)
                          (
                            refl,
                            at_offset _ h.0 (polled_within available w h),
                            λ k.
                                subst
                                  (λ c.
                                    FromPrefix same_key loads log
                                      (c + length (poll batch_size log available w)) k
                                      (find table k))
                                  (sym h.0) (written available count w table h e k),
                          )
                  ]
          ]
        where
          empty_poll : (values : List T) → no_values values ≡ true → (p : ℕ) → p + length values ≡ p
          empty_poll [] e p = omega arith
          empty_poll (x ∷ xs) e p = absurd (ground arith)

          at_offset : {p c : ℕ} (m : ℕ) → p ≡ c → c + m ≤ length log → p + m ≤ length log
          at_offset m e within = omega arith

      pub run-Holds :
          (events : List BatchEvent) (w : Sink DB)
          → Holds w
          → Holds (run loads execute_values batch_size log events w)
      unfolding run
      run-Holds [] w h = h
      run-Holds (e ∷ events) w h =
          run-Holds events (step loads execute_values batch_size log w e) (step-Holds w e h)

      pub at_end :
          (c : ℕ) (k : K) (row : Option (Row F))
          → c ≡ length log
          → FromPrefix same_key loads log c k row
          → row ≡ newest same_key k (rows_of loads log)
      at_end c k row caught_up (q, above, below, e) =
          let same : q ≡ length log = omega arith in
          e
          ∙ ap (λ j. newest same_key k (rows_of loads (take j log))) same
          ∙ ap (λ l. newest same_key k (rows_of loads l)) (take-all log)

      pub start-Holds : (table : DB) → ((k : K) → find table k ≡ none) → Holds (start table)
      start-Holds table blank = (refl, omega arith, λ k. (0, omega arith, omega arith, blank k))

      -- From an empty table, however often the process is killed, before or after the transaction of a
      -- batch commits, and whatever the polls return: the row of each key is the newest one in some
      -- prefix of the log no shorter than what is committed to Kafka, if json.loads raises only
      -- JSONDecodeError and TypeError and a successful statement leaves the last row of each key.
      pub run-newest :
          (events : List BatchEvent) (table : DB)
          → ((k : K) → find table k ≡ none)
          → let w = run loads execute_values batch_size log events (start table) in
            (k : K) → FromPrefix same_key loads log w.committed k (find w.table k)
      run-newest events table blank = (run-Holds events (start table) (start-Holds table blank)).2
