-- ===== src/Sink/Connect/Tests.antt =====
-- A database that comes up at the second attempt.
use radiation_tracking.Prelude.{ℕ, ◌≡◌, refl, Bool, some, ◌==◌}
use radiation_tracking.Prelude.Int.{pos}
use radiation_tracking.Prelude.Attempts.{FirstUp}
use radiation_tracking.Sink.Connect.{connect_with_retry, Slept, connect_with_retry_lem}

abbrev at_second : ℕ → Bool
at_second a = a == 2

connect_with_retry_lem_example :
    let (conn, sleeps) = connect_with_retry at_second (pos 30) in
    FirstUp at_second 1 30 conn × Slept at_second 1 30 conn sleeps
connect_with_retry_lem_example = connect_with_retry_lem at_second (pos 30)

connect_with_retry_second : connect_with_retry at_second (pos 30) ≡ (some 2, 1)
unfolding connect_with_retry
connect_with_retry_second = refl
