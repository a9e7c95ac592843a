-- ===== src/Scripts/Provisioning/Caps.antt =====
-- What the exit code of a run with --verify-retention says of the broker.
use radiation_tracking.Prelude.{
  ◌≡◌, refl, ap, ◌∙◌, String, Bool, true, false, ◌&&◌, ◌||◌, Option, none, some, List, [], ◌∷◌,
  ◌++◌, arith, if◌then◌else◌,
}
use radiation_tracking.Prelude.Int.{ℤ, pos, leb_ℤ}
use radiation_tracking.Backend.Topics.{named, missing}
use radiation_tracking.Backend.Topics.Startup.{Creates, named-missing}
use radiation_tracking.Scripts.Provisioning.{
  all_topics, Problem, TopicConfig, config_value, topic_config, int_or_none, check_value,
  check_retention, problems_of, environ, verify_with, verify_retention, provision_topics,
  check_problems, provision_with, main,
}

abbrev pub is_nil {ℓ} : {A : Type ℓ} → List A → Bool
is_nil [] = true
is_nil (x ∷ xs) = false

is_nil-append {ℓ} : {A : Type ℓ} (xs ys : List A) → is_nil (xs ++ ys) ≡ (is_nil xs && is_nil ys)
is_nil-append [] ys = refl
is_nil-append (x ∷ xs) ys = refl

-- A value that is read, bounded, and at most the cap.
abbrev pub capped : Option ℤ → ℤ → Bool
capped none cap = false
capped (some value) cap = leb_ℤ (pos 0) value && leb_ℤ value cap

module _ (int : String → Option ℤ) where
  check_value-capped :
      (topic key : String) (cap : ℤ) (value : Option ℤ)
      → is_nil (check_value int topic key cap value) ≡ capped value cap
  unfolding check_value
  check_value-capped topic key cap none = refl
  check_value-capped topic key cap (some value) = ground arith

  -- Both retentions of each topic are capped.
  abbrev pub all_capped : List (String × TopicConfig) → ℤ → ℤ → List String → Bool
  all_capped configs max_bytes max_ms [] = true
  all_capped configs max_bytes max_ms (topic ∷ topics) =
      let config = topic_config configs topic in
      (capped (int_or_none int (config_value config "retention.bytes")) max_bytes
        && capped (int_or_none int (config_value config "retention.ms")) max_ms)
      && all_capped configs max_bytes max_ms topics

  problems_of-capped :
      (configs : List (String × TopicConfig)) (max_bytes max_ms : ℤ) (topics : List String)
      → is_nil (problems_of int configs max_bytes max_ms topics)
        ≡ all_capped configs max_bytes max_ms topics
  unfolding problems_of check_retention
  problems_of-capped configs max_bytes max_ms [] = refl
  problems_of-capped configs max_bytes max_ms (topic ∷ topics) =
      let config = topic_config configs topic in
      simp (is_nil-append, check_value-capped, problems_of-capped configs max_bytes max_ms topics)

  -- Whether the caps and the configurations are read, and all are capped.
  abbrev pub verified : Option ℤ → Option ℤ → Option (List (String × TopicConfig)) → Bool
  verified (some max_bytes) (some max_ms) (some configs) =
      all_capped configs max_bytes max_ms all_topics
  verified _ _ _ = false

abbrev pub both_read : Option ℤ → Option ℤ → Bool
both_read (some a) (some b) = true
both_read _ _ = false

check_problems_lem : (problems : List Problem) → check_problems (some problems) ≡ is_nil problems
unfolding check_problems
check_problems_lem [] = refl
check_problems_lem (p ∷ ps) = refl

module _ (int : String → Option ℤ) (env : String → Option String)
    (create_topics : List String → List String → List String)
    (describe : List String → Option (List (String × TopicConfig))) where
  check_problems-verified :
      (max_bytes max_ms : Option ℤ) (configs : Option (List (String × TopicConfig)))
      → check_problems (verify_with int env create_topics describe max_bytes max_ms configs)
        ≡ verified int max_bytes max_ms configs
  unfolding check_problems verify_with
  check_problems-verified (some a) (some b) (some configs) =
      check_problems_lem (problems_of int configs a b all_topics)
      ∙ problems_of-capped int configs a b all_topics
  check_problems-verified none b c = refl
  check_problems-verified (some a) none c = refl
  check_problems-verified (some a) (some b) none = refl

  named-provision_topics :
      (creates : Creates (λ a. true) create_topics) (existing : List String) (t : String)
      → named t (provision_topics int env create_topics describe existing)
        ≡ (named t existing || named t all_topics)
  unfolding provision_topics
  named-provision_topics creates existing t =
      made (missing existing all_topics)
        (named-missing (λ a. true) create_topics creates existing all_topics t)
    where
      made :
          (wanted : List String)
          → (named t existing || named t wanted) ≡ (named t existing || named t all_topics)
          → named t (elim wanted [
            | [] ↦ existing
            | w ∷ to_create ↦ create_topics existing (w ∷ to_create)
          ])
            ≡ (named t existing || named t all_topics)
      made [] h = ground arith
      made (w ∷ to_create) h = creates existing (w ∷ to_create) t ∙ h

  provision_with_lem :
      (creates : Creates (λ a. true) create_topics) (partitions replication : Option ℤ)
      (reachable : Bool) (existing : List String)
      → let started = both_read partitions replication && reachable in
        let (returned, topics) =
          provision_with int env create_topics describe partitions replication reachable true
            existing in
        (returned ≡ (started && check_problems (verify_retention int env create_topics describe)))
        × ((t : String)
            → named t topics
              ≡ (if started then named t existing || named t all_topics else named t existing))
  unfolding provision_with
  provision_with_lem creates none b reachable existing = (refl, λ t. refl)
  provision_with_lem creates (some a) none reachable existing = (refl, λ t. refl)
  provision_with_lem creates (some a) (some b) false existing = (refl, λ t. refl)
  provision_with_lem creates (some a) (some b) true existing =
      (refl, λ t. named-provision_topics creates existing t)

  -- If create_topics makes what it is asked for and keeps the rest: a run with --verify-retention
  -- exits with 0 exactly if the numbers of partitions and replicas can be read, the broker is reached,
  -- the caps and the configurations are read, and both retentions of all five topics are numbers from
  -- 0 up to their caps. Once the broker is reached it has the topics that it had and the five.
  pub main_lem :
      (creates : Creates (λ a. true) create_topics) (reachable : Bool) (existing : List String)
      → let started =
          both_read
            (int (environ env "KAFKA_NUM_PARTITIONS" "1"))
            (int (environ env "KAFKA_REPLICATION_FACTOR" "1"))
          && reachable in
        let (exit_code, topics) = main int env create_topics describe reachable true existing in
        (exit_code ≡ (
          if started
            && verified int
                (int (environ env "KAFKA_LOG_RETENTION_BYTES" "1073741824"))
                (int (environ env "KAFKA_LOG_RETENTION_MS" "86400000"))
                (describe all_topics)
          then 0
          else 1))
        × ((t : String)
            → named t topics
              ≡ (if started then named t existing || named t all_topics else named t existing))
  unfolding main verify_retention
  main_lem creates reachable existing =
      let partitions = int (environ env "KAFKA_NUM_PARTITIONS" "1") in
      let replication = int (environ env "KAFKA_REPLICATION_FACTOR" "1") in
      let (returned, topics) =
        provision_with_lem creates partitions replication reachable existing in
      (
        ap (λ b. if b then 0 else 1)
            (returned
              ∙ ap (λ b. both_read partitions replication && reachable && b)
                  (check_problems-verified _ _ _)),
        topics,
      )
