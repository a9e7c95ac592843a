-- ===== src/Scripts/Provisioning/Tests.antt =====
-- A broker without caps on one topic.
use radiation_tracking.Prelude.{
  ◌≡◌, refl, String, Bool, true, false, ◌&&◌, ◌||◌, Option, none, some, List, [], ◌∷◌, ◌++◌, str_eq,
  if◌then◌else◌,
}
use radiation_tracking.Prelude.Int.{ℤ, pos, negsuc}
use radiation_tracking.Backend.Topics.{named}
use radiation_tracking.Backend.Topics.Startup.{Creates}
use radiation_tracking.Scripts.Provisioning.{all_topics, TopicConfig, environ, main}
use radiation_tracking.Scripts.Provisioning.Caps.{both_read, verified, main_lem}

abbrev read_int : String → Option ℤ
read_int s =
    if str_eq s "1"
    then some (pos 1)
    else if str_eq s "-1"
    then some (negsuc 0)
    else some (pos 1000)

abbrev no_env : String → Option String
no_env name = none

abbrev add_all : List String → List String → List String
add_all existing topics = existing ++ topics

add_all-Creates : Creates (λ a. true) add_all
add_all-Creates [] topics t = refl
add_all-Creates (x ∷ existing) topics t =
    rw (add_all-Creates existing topics t) (regroup (str_eq x t) _ _)
  where
    regroup : (a b c : Bool) → (a || (b || c)) ≡ ((a || b) || c)
    regroup true b c = refl
    regroup false b c = refl

abbrev forever : List String → Option (List (String × TopicConfig))
forever topics =
    some (("radiation.raw", ("retention.ms", some "-1") ∷ ("retention.bytes", some "1") ∷ []) ∷ [])

main_lem_example :
    let started =
      both_read
        (read_int (environ no_env "KAFKA_NUM_PARTITIONS" "1"))
        (read_int (environ no_env "KAFKA_REPLICATION_FACTOR" "1"))
      && true in
    let (exit_code, topics) = main read_int no_env add_all forever true true ("other" ∷ []) in
    (exit_code ≡ (
      if started
        && verified read_int
            (read_int (environ no_env "KAFKA_LOG_RETENTION_BYTES" "1073741824"))
            (read_int (environ no_env "KAFKA_LOG_RETENTION_MS" "86400000"))
            (forever all_topics)
      then 0
      else 1))
    × ((t : String)
        → named t topics ≡ (
            if started
            then named t ("other" ∷ []) || named t all_topics
            else named t ("other" ∷ [])))
main_lem_example = main_lem read_int no_env add_all forever add_all-Creates true ("other" ∷ [])
