-- ===== src/Sink/Connect.antt =====
-- `connect_with_retry` of aggregated_sink/db.py. A parameter says which attempts succeed; there is no
-- attempt where the number of retries is negative.
mod Tests
use radiation_tracking.Prelude.{
  ℕ, zero, suc, ◌+◌, ◌-◌, ◌≤◌, ◌<◌, ◌≡◌, Bool, true, false, Option, none, some, arith,
  if◌then◌else◌, Bool-cases, inl, inr,
}
use radiation_tracking.Prelude.Int.{ℤ, pos, negsuc, pos_part}
use radiation_tracking.Prelude.Attempts.{FirstUp, FirstUp-here, FirstUp-later}

module _ (up : ℕ → Bool) where
  -- The attempt that connected, or none where RuntimeError is raised, and the number of sleeps.
  unfoldable pub connect_attempts : ℕ → ℕ → Option ℕ × ℕ
  connect_attempts attempt zero = (none, 0)
  connect_attempts attempt (suc left) =
      let (conn, sleeps) = connect_attempts (attempt + 1) left in
      if up attempt then (some attempt, 0) else (conn, sleeps + 1)

  unfoldable pub connect_with_retry : ℤ → Option ℕ × ℕ
  unfolding connect_attempts
  connect_with_retry retries = connect_attempts 1 (pos_part retries)

  -- One sleep after each attempt that failed.
  abbrev pub Slept : ℕ → ℕ → Option ℕ → ℕ → Type 0
  Slept attempt left none sleeps = sleeps ≡ left
  Slept attempt left (some a) sleeps = sleeps ≡ a - attempt

  Slept-later :
      (attempt left : ℕ) (conn : Option ℕ) (sleeps : ℕ)
      → FirstUp up (attempt + 1) left conn
      → Slept (attempt + 1) left conn sleeps
      → Slept attempt (suc left) conn (sleeps + 1)
  Slept-later attempt left none sleeps first h = omega arith
  Slept-later attempt left (some a) sleeps (above, below, here, before) h = omega arith

  connect_attempts_lem :
      (attempt left : ℕ)
      → let (conn, sleeps) = connect_attempts attempt left in
        FirstUp up attempt left conn × Slept attempt left conn sleeps
  unfolding connect_attempts
  connect_attempts_lem attempt zero = (λ a above below. absurd (omega arith), omega arith)
  connect_attempts_lem attempt (suc left) =
      let (conn, sleeps) = connect_attempts (attempt + 1) left in
      let (first, slept) = connect_attempts_lem (attempt + 1) left in
      elim (Bool-cases (up attempt)) [
        | inl e ↦ rw e (FirstUp-here up attempt left e, omega arith)
        | inr e ↦ rw e (
          FirstUp-later up attempt left conn e first,
          Slept-later attempt left conn sleeps first slept,
        )
      ]

  -- The sink is connected by the first attempt that succeeds, and raises RuntimeError exactly where
  -- all of the `retries` attempts fail; it sleeps once after each attempt that failed.
  pub connect_with_retry_lem :
      (retries : ℤ)
      → let (conn, sleeps) = connect_with_retry retries in
        FirstUp up 1 (pos_part retries) conn × Slept 1 (pos_part retries) conn sleeps
  unfolding connect_with_retry
  connect_with_retry_lem retries = connect_attempts_lem 1 (pos_part retries)
