-- ===== src/Scripts/Provisioning.antt =====
-- scripts/provision_topics.py: the topics of a remote broker, and the caps on their retention. The
-- broker is a parameter; none stands for an exception, which `main` reports.
pub mod Caps
mod Tests
use radiation_tracking.Prelude.{
  ℕ, String, Bool, true, false, not, ◌&&◌, Option, none, some, List, [], ◌∷◌, ◌++◌, str_eq,
  if◌then◌else◌,
}
use radiation_tracking.Prelude.Int.{ℤ, pos, leb_ℤ, ltb_ℤ}
use radiation_tracking.Backend.Topics.{missing}

abbrev pub all_topics : List String
all_topics =
    "radiation.raw" ∷ "radiation.clean" ∷ "radiation.aggregated" ∷ "radiation.alerts"
    ∷ "config.updates" ∷ []

-- A violation of a cap: of a topic, of `retention.bytes` or `retention.ms`.
pub data Problem : Type 0 where
  non_numeric : String → String → Problem
  unbounded : String → String → ℤ → Problem
  over_cap : String → String → ℤ → ℤ → Problem

-- The configuration of a topic, as `DescribeConfigs` returns it.
abbrev pub TopicConfig : Type 0
TopicConfig = List (String × Option String)

-- `configs.get(key)`
unfoldable pub config_value : TopicConfig → String → Option String
config_value [] key = none
config_value ((k, v) ∷ configs) key = if str_eq k key then v else config_value configs key

-- `configs.get(topic, {})`
unfoldable pub topic_config : List (String × TopicConfig) → String → TopicConfig
topic_config [] topic = []
topic_config ((t, c) ∷ configs) topic = if str_eq t topic then c else topic_config configs topic

module _ (int : String → Option ℤ) where
  abbrev pub int_or_none : Option String → Option ℤ
  int_or_none none = none
  int_or_none (some raw) = int raw

  -- One round of the loop of `check_retention`.
  unfoldable pub check_value : String → String → ℤ → Option ℤ → List Problem
  check_value topic key cap none = non_numeric topic key ∷ []
  check_value topic key cap (some value) =
      if ltb_ℤ value (pos 0)
      then unbounded topic key value ∷ []
      else if ltb_ℤ cap value
      then over_cap topic key value cap ∷ []
      else []

  unfoldable pub check_retention : String → TopicConfig → ℤ → ℤ → List Problem
  unfolding check_value
  check_retention topic configs max_bytes max_ms =
      check_value topic "retention.bytes" max_bytes
        (int_or_none (config_value configs "retention.bytes"))
      ++ check_value topic "retention.ms" max_ms (int_or_none (config_value configs "retention.ms"))

  -- The problems of the topics, as `verify_retention` collects them.
  unfoldable pub problems_of : List (String × TopicConfig) → ℤ → ℤ → List String → List Problem
  unfolding check_retention
  problems_of configs max_bytes max_ms [] = []
  problems_of configs max_bytes max_ms (topic ∷ topics) =
      check_retention topic (topic_config configs topic) max_bytes max_ms
      ++ problems_of configs max_bytes max_ms topics

-- RuntimeError where there are problems.
unfoldable pub check_problems : Option (List Problem) → Bool
check_problems none = false
check_problems (some []) = true
check_problems (some (p ∷ problems)) = false

-- `os.environ.get(name, default)`
abbrev pub environ : (String → Option String) → String → String → String
environ env name default = elim (env name) [ none ↦ default | some text ↦ text ]

module _ (int : String → Option ℤ) (env : String → Option String)
    (create_topics : List String → List String → List String)
    (describe : List String → Option (List (String × TopicConfig))) where
  -- The configurations, where both caps can be read.
  unfoldable pub verify_with :
      Option ℤ → Option ℤ → Option (List (String × TopicConfig)) → Option (List Problem)
  verify_with (some max_bytes) (some max_ms) (some configs) =
      some (problems_of int configs max_bytes max_ms all_topics)
  verify_with _ _ _ = none

  unfoldable pub verify_retention : Option (List Problem)
  unfolding verify_with
  verify_retention =
      verify_with (int (environ env "KAFKA_LOG_RETENTION_BYTES" "1073741824"))
        (int (environ env "KAFKA_LOG_RETENTION_MS" "86400000")) (describe all_topics)

  -- The topics of the broker after the creation; TopicAlreadyExistsError is swallowed.
  unfoldable pub provision_topics : List String → List String
  provision_topics existing = elim (missing existing all_topics) [
    | [] ↦ existing
    | t ∷ to_create ↦ create_topics existing (t ∷ to_create)
  ]

  -- `provision`: whether it returns, and the topics of the broker that it leaves.
  unfoldable pub provision_with :
      Option ℤ → Option ℤ → Bool → Bool → List String → Bool × List String
  unfolding provision_topics check_problems verify_retention
  provision_with (some partitions) (some replication) reachable with_retention_check existing =
      let checked = if with_retention_check then check_problems verify_retention else true in
      if reachable then (checked, provision_topics existing) else (false, existing)
  provision_with _ _ reachable with_retention_check existing = (false, existing)

  unfoldable pub provision : Bool → Bool → List String → Bool × List String
  unfolding provision_with
  provision reachable with_retention_check existing =
      provision_with (int (environ env "KAFKA_NUM_PARTITIONS" "1"))
        (int (environ env "KAFKA_REPLICATION_FACTOR" "1")) reachable with_retention_check existing

  -- The exit code of `main`, and the topics.
  unfoldable pub main : Bool → Bool → List String → ℕ × List String
  unfolding provision
  main reachable with_retention_check existing =
      let (returned, topics) = provision reachable with_retention_check existing in
      (if returned then 0 else 1, topics)
