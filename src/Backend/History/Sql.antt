-- ===== src/Backend/History/Sql.antt =====
-- The text of the conditions of a history query. `str` of an int is a parameter.
use Prim.Native.String.{◌++◌}
use radiation_tracking.Prelude.{ℕ, String, List, [], ◌∷◌}

-- A condition with the positions of its parameters.
pub data Condition : Type 0 where
  centroid_between : ℕ → ℕ → ℕ → ℕ → Condition
  starts_after : ℕ → Condition
  starts_before : ℕ → Condition

module _ (show : ℕ → String) where
  unfoldable pub condition_sql : Condition → String
  condition_sql (centroid_between a b c d) =
      "centroid_latitude BETWEEN $"
      ++ (show a
          ++ (" AND $"
              ++ (show b
                  ++ (" AND centroid_longitude BETWEEN $" ++ (show c ++ (" AND $" ++ show d))))))
  condition_sql (starts_after i) = "window_start >= $" ++ show i
  condition_sql (starts_before i) = "window_start <= $" ++ show i

  unfoldable pub join_conditions : List Condition → String
  unfolding condition_sql
  join_conditions [] = ""
  join_conditions (c ∷ []) = condition_sql c
  join_conditions (c ∷ d ∷ cs) = condition_sql c ++ (" AND " ++ join_conditions (d ∷ cs))

  -- The clause, or no text where there is no condition.
  unfoldable pub where_sql : List Condition → String
  unfolding join_conditions
  where_sql [] = ""
  where_sql (c ∷ cs) = " WHERE " ++ join_conditions (c ∷ cs)
