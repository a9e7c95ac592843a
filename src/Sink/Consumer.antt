-- ===== src/Sink/Consumer.antt =====
-- aggregated_sink/consumer.py and `upsert_batch` of aggregated_sink/db.py. The topic is the list of
-- its messages; `json.loads` and psycopg2's `execute_values` are parameters, the second with what
-- the transaction leaves in the table, or the exception that it raises.
pub mod Messages
pub mod Newest
pub mod Once
pub mod Progress
pub mod Stuck
mod Tests
use radiation_tracking.Prelude.{
  ℕ, ◌+◌, min, Bool, true, false, List, [], ◌∷◌, length, take, drop, if◌then◌else◌,
}
use radiation_tracking.Python.{Number, Value, Result, ok, raise, ◌>>=◌}
use radiation_tracking.Sink.Rows.{Row, build_rows, decode}

-- The table, the consumer's position, and the offset that is committed to Kafka.
pub record Sink (DB : Type 0) : Type 0 where
  pub table : DB
  pub position : ℕ
  pub committed : ℕ

-- What happens to the process while it handles the batch that a poll returns. The number is how
-- many messages the broker has at hand.
pub data BatchEvent : Type 0 where
  batch : ℕ → BatchEvent
  -- killed when Postgres has committed and Kafka has not
  killed_before_commit : ℕ → BatchEvent
  -- killed before Postgres has committed
  killed_before_upsert : BatchEvent

abbrev pub no_values : {T : Type 0} → List T → Bool
no_values [] = true
no_values (x ∷ xs) = false

module _ {DB : Type 0} where
  -- A new process continues from the committed offset.
  unfoldable pub restart : Sink DB → Sink DB
  restart w = record w { position = w.committed }

  -- The Kafka commit comes after the batch is in the table.
  unfoldable pub commit_offsets : Result (ℕ × DB) → Sink DB → Result ℕ × Sink DB
  commit_offsets (raise e) w = (raise e, w)
  commit_offsets (ok (written, table)) w =
      (ok written, record w { table = table; committed = w.position })

  -- An exception leaves `run`, which closes the consumer and ends the process.
  unfoldable pub survive : Result ℕ × Sink DB → Sink DB
  unfolding restart
  survive (ok written, w) = w
  survive (raise e, w) = restart w

  unfoldable pub lost_commit : Result (ℕ × DB) → Sink DB → Sink DB
  unfolding restart
  lost_commit (ok (written, table)) w = restart (record w { table = table })
  lost_commit (raise e) w = restart w

module _ {T DB : Type 0} (batch_size : ℕ) (log : List T) where
  -- The values of `consumer.poll(max_records=batch_size)`.
  unfoldable pub poll : ℕ → Sink DB → List T
  poll available w = take (min available batch_size) (drop w.position log)

  unfoldable pub advance : ℕ → Sink DB → Sink DB
  unfolding poll
  advance available w = record w { position = w.position + length (poll available w) }

module _ {F T DB : Type 0} ⦃n : Number F⦄ (loads : T → Result (Value F))
    (execute_values : DB → List (Row F) → Result DB) where
  unfoldable pub upsert_batch : DB → List (Row F) → Result (ℕ × DB)
  upsert_batch table [] = ok (0, table)
  upsert_batch table (row ∷ rows) = do
    table' ← execute_values table (row ∷ rows)
    ok (length (row ∷ rows), table')

  -- `upsert_batch(conn, build_rows(_decode(values)))`
  unfoldable pub write_batch : DB → List T → Result (ℕ × DB)
  unfolding upsert_batch
  write_batch table values = do
    records ← decode loads values
    rows ← build_rows records
    upsert_batch table rows

  module _ (batch_size : ℕ) (log : List T) where
    unfoldable pub process_batch : ℕ → Sink DB → Result ℕ × Sink DB
    unfolding poll advance commit_offsets write_batch
    process_batch available w =
        let values = poll batch_size log available w in
        let w' = advance batch_size log available w in
        if no_values values then (ok 0, w') else commit_offsets (write_batch w'.table values) w'

    unfoldable pub step : Sink DB → BatchEvent → Sink DB
    unfolding process_batch survive lost_commit restart write_batch poll advance
    step w (batch available) = survive (process_batch available w)
    step w (killed_before_commit available) =
        lost_commit (write_batch w.table (poll batch_size log available w))
          (advance batch_size log available w)
    step w killed_before_upsert = restart w

    -- The batches of `run`, over all the times that the process is started.
    unfoldable pub run : List BatchEvent → Sink DB → Sink DB
    unfolding step
    run [] w = w
    run (e ∷ events) w = run events (step w e)
