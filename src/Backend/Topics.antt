-- ===== src/Backend/Topics.antt =====
-- backend/app/core/kafka_admin.py: the topics that the backend creates when it starts. The broker is
-- the list of its topics, and a parameter says which attempts to reach it succeed.
pub mod Startup
pub mod Tests
use radiation_tracking.Prelude.{
  ℕ, zero, suc, ◌+◌, String, Bool, true, false, not, ◌||◌, Option, none, some, List, [], ◌∷◌,
  filter, ltb, str_eq, if◌then◌else◌,
}

-- The fields of `Settings` that the module reads.
pub record TopicSettings : Type 0 where
  pub kafka_topic_raw : String
  pub kafka_topic_clean : String
  pub kafka_topic_aggregated : String
  pub kafka_topic_alerts : String
  pub kafka_topic_config : String
  pub kafka_topic_init_enabled : Bool
  pub kafka_admin_retry_attempts : ℕ

-- A run of `_connect_admin`: the attempt that succeeded, how often it slept, and how many clients it
-- closed.
pub record Connection : Type 0 where
  pub admin : Option ℕ
  pub sleeps : ℕ
  pub closed : ℕ

-- `t in names`
abbrev pub named : String → List String → Bool
named t [] = false
named t (name ∷ names) = str_eq name t || named t names

unfoldable pub project_topics : TopicSettings → List String
project_topics s =
    s.kafka_topic_raw ∷ s.kafka_topic_clean ∷ s.kafka_topic_aggregated ∷ s.kafka_topic_alerts
    ∷ s.kafka_topic_config ∷ []

-- The topics of the list that the broker does not have.
unfoldable pub missing : List String → List String → List String
missing existing topics = filter (λ t. not (named t existing)) topics

module _ (up : ℕ → Bool) where
  -- The loop of `_connect_admin` from an attempt on, with so many left.
  unfoldable pub connect_from : ℕ → ℕ → ℕ → Connection
  connect_from attempts attempt zero = record { admin = none; sleeps = 0; closed = 0 }
  connect_from attempts attempt (suc left) =
      let rest = connect_from attempts (attempt + 1) left in
      let slept = if ltb attempt attempts then rest.sleeps + 1 else rest.sleeps in
      if up attempt
      then record { admin = some attempt; sleeps = 0; closed = 0 }
      else record { admin = rest.admin; sleeps = slept; closed = rest.closed + 1 }

  unfoldable pub connect_admin : ℕ → Connection
  unfolding connect_from
  connect_admin attempts = connect_from attempts 1 attempts

  module _ (create_topics : List String → List String → List String) where
    -- The branches after the connection. A TopicAlreadyExistsError of `create_topics` is swallowed.
    unfoldable pub create_missing : List String → Option ℕ → List String → List String
    unfolding missing
    create_missing topics none existing = existing
    create_missing topics (some attempt) existing = elim (missing existing topics) [
      | [] ↦ existing
      | t ∷ to_create ↦ create_topics existing (t ∷ to_create)
    ]

    -- The topics of the broker after `ensure_topics`.
    unfoldable pub ensure_topics : TopicSettings → List String → List String
    unfolding create_missing connect_admin project_topics
    ensure_topics s existing =
        if not s.kafka_topic_init_enabled
        then existing
        else create_missing (project_topics s) (connect_admin s.kafka_admin_retry_attempts).admin
            existing
