-- ===== src/Sink/Consumer/Progress.antt =====
-- The sink catches up with the topic once it is left alone.
use radiation_tracking.Prelude.{
  ℕ, ◌+◌, ◌-◌, ◌≤◌, min, ◌≡◌, refl, inl, inr, Bool, Option, none, List, [], ◌∷◌, length, take, drop,
  All, arith, Bool-cases, length-take, length-drop,
}
use radiation_tracking.Python.{Number, Value, Result, ok}
use radiation_tracking.Sink.Rows.{Row}
use radiation_tracking.Sink.Consumer.{
  Sink, BatchEvent, batch, killed_before_commit, killed_before_upsert, upsert_batch, write_batch,
  poll, step, run, no_values,
}
use radiation_tracking.Sink.Consumer.Messages.{Loads, rows_of, decode-build_rows, length-empty}
use radiation_tracking.Sink.Consumer.Newest.{newest}
use radiation_tracking.Sink.Consumer.Once.{Upserts, run-Holds, start, start-Holds, at_end}

module _ {F T DB : Type 0} ⦃n : Number F⦄ (loads : T → Result (Value F))
    (execute_values : DB → List (Row F) → Result DB) (batch_size : ℕ) (log : List T) where
  -- Postgres is up, and takes the rows of each part of the log that a poll may return.
  abbrev pub Succeeds : Type 0
  Succeeds =
      (table : DB) (c m : ℕ)
      → m ≤ batch_size
      → (table' : DB) × (execute_values table (rows_of loads (take m (drop c log))) ≡ ok table')

  -- A batch that is not disturbed, with a message at hand if there is one.
  abbrev pub Ready : BatchEvent → Type 0
  Ready (batch available) = 1 ≤ available
  Ready _ = ⊥

  upsert_batch-ok :
      (table table' : DB) (rows : List (Row F))
      → execute_values table rows ≡ ok table'
      → (count : ℕ) × (t : DB) × (upsert_batch loads execute_values table rows ≡ ok (count, t))
  unfolding upsert_batch
  upsert_batch-ok table table' [] h = (0, table, refl)
  upsert_batch-ok table table' (row ∷ rows) h = (length (row ∷ rows), table', rw h refl)

  module _ (loaded : Loads loads) (succeeds : Succeeds) where
    write-ok :
        (table : DB) (c m : ℕ)
        → m ≤ batch_size
        → (count : ℕ) × (t : DB) × (write_batch loads execute_values table (take m (drop c log))
            ≡ ok (count, t))
    unfolding write_batch
    write-ok table c m h =
        let (records, hd, hb) = decode-build_rows loads loaded (take m (drop c log)) in
        let (table', done) = succeeds table c m h in
        let (count, t, e) =
          upsert_batch-ok table table' (rows_of loads (take m (drop c log))) done in
        (count, t, rw (hd, hb) e)

    step-advances :
        (w : Sink DB) (available : ℕ)
        → w.position ≡ w.committed
        → let w' = step loads execute_values batch_size log w (batch available) in
          (w'.position ≡ w'.committed)
          × (w'.committed ≡ w.committed + length (poll batch_size log available w))
    unfolding step
    step-advances w available h = elim (Bool-cases (no_values (poll batch_size log available w))) [
      | inl none_left ↦
          let nothing = length-empty (poll batch_size log available w) none_left in
          rw none_left (omega arith, omega arith)
      | inr some_left ↦
          let (count, t, e) =
            write-ok w.table w.position (min available batch_size) (omega arith) in
          rw (some_left, e) (refl, omega arith)
    ]

    length-poll :
        (available : ℕ) (w : Sink DB)
        → length (poll batch_size log available w)
          ≡ min (min available batch_size) (length log - w.position)
    unfolding poll
    length-poll available w = omega (
      arith,
      length-take (min available batch_size) (drop w.position log),
      length-drop w.position log,
    )

    run-drained :
        (events : List BatchEvent) (w : Sink DB)
        → w.position ≡ w.committed
        → w.committed ≤ length log
        → 1 ≤ batch_size
        → All Ready events
        → length log ≤ w.committed + length events
        → (run loads execute_values batch_size log events w).committed ≡ length log
    unfolding run
    run-drained [] w h within positive ready enough = omega arith
    run-drained (batch available ∷ events) w h within positive ready enough =
        let (at, grown) = step-advances w available h in
        let polled : length (poll batch_size log available w)
            ≡ min (min available batch_size) (length log - w.position) =
          length-poll available w in
        run-drained events (step loads execute_values batch_size log w (batch available)) at
          (omega arith) positive ready.1 (omega arith)
    run-drained (killed_before_commit available ∷ events) w h within positive ready enough =
        absurd ready.0
    run-drained (killed_before_upsert ∷ events) w h within positive ready enough = absurd ready.0

    module _ {K : Type 0} (same_key : Row F → K → Bool) (find : DB → K → Option (Row F))
        (upserts : Upserts loads execute_values same_key find) where
      -- If json.loads raises only JSONDecodeError and TypeError, and the statement for the rows of any
      -- part of the log that a poll may return succeeds and leaves the last row of each key: from an
      -- empty table, however often the process is killed at first, after as many further batches as
      -- the log has messages, each polled with a message at hand and not disturbed, the whole log is
      -- committed and the row of each key is the newest one in it.
      pub run-all :
          (disturbed undisturbed : List BatchEvent) (table : DB)
          → ((k : K) → find table k ≡ none)
          → 1 ≤ batch_size
          → All Ready undisturbed
          → length log ≤ length undisturbed
          → let w =
              run loads execute_values batch_size log undisturbed
                (run loads execute_values batch_size log disturbed (start table)) in
            (w.committed ≡ length log)
            × ((k : K) → find w.table k ≡ newest same_key k (rows_of loads log))
      run-all disturbed undisturbed table blank positive ready enough =
          let w = run loads execute_values batch_size log disturbed (start table) in
          let before =
            run-Holds loads execute_values same_key find loaded upserts batch_size log disturbed
              (start table)
              (start-Holds loads execute_values same_key find loaded upserts batch_size log table
                blank) in
          let after =
            run-Holds loads execute_values same_key find loaded upserts batch_size log undisturbed w
              before in
          let drained = run-drained undisturbed w before.0 before.1 positive ready (omega arith) in
          (
            drained,
            λ k.
                at_end loads execute_values same_key find loaded upserts batch_size log _ k _
                  drained (after.2 k),
          )
