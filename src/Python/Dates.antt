-- ===== src/Python/Dates.antt =====
-- `datetime.datetime`, as a type with the operations that the program calls.
use radiation_tracking.Prelude.{String, Bool, Option}
use radiation_tracking.Prelude.Int.{ℤ}

pub record Datetime (D : Type 0) : Type 0 where
  -- `datetime.fromisoformat`, `none` where it raises ValueError
  pub fromisoformat : String → Option D
  pub isoformat : D → String
  -- `dt.tzinfo is None`
  pub is_naive : D → Bool
  -- `dt.replace(tzinfo=timezone.utc)`
  pub replace_utc : D → D
  -- `dt.astimezone(timezone.utc)`, `none` where it raises OverflowError
  pub astimezone_utc : D → Option D
  -- `int(dt.timestamp() * 1000)`
  pub timestamp_millis : D → ℤ
  -- `a <= b`, where both have an offset or neither has
  pub le : D → D → Bool
