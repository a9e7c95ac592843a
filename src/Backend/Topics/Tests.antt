-- ===== src/Backend/Topics/Tests.antt =====
-- A broker that comes up at the third attempt.
use radiation_tracking.Prelude.{
  ℕ, ◌≡◌, refl, String, Bool, true, some, List, [], ◌∷◌, ◌++◌, leb, arith,
}
use radiation_tracking.Backend.Topics.{TopicSettings, connect_admin}
use radiation_tracking.Backend.Topics.Startup.{Creates}

abbrev pub from_third : ℕ → Bool
from_third a = leb 3 a

abbrev pub add_topics : List String → List String → List String
add_topics existing topics = existing ++ topics

abbrev two_known : List String
two_known = "radiation.raw" ∷ "other" ∷ []

abbrev pub topic_settings : TopicSettings
topic_settings = record {
  kafka_topic_raw = "radiation.raw";
  kafka_topic_clean = "radiation.clean";
  kafka_topic_aggregated = "radiation.aggregated";
  kafka_topic_alerts = "radiation.alerts";
  kafka_topic_config = "config.updates";
  kafka_topic_init_enabled = true;
  kafka_admin_retry_attempts = 5;
}

add_topics-Creates : Creates from_third add_topics
add_topics-Creates [] topics t = refl
add_topics-Creates (x ∷ existing) topics t = ground (arith, add_topics-Creates existing topics t)

connect_admin_third : (connect_admin from_third 5).admin ≡ some 3
unfolding connect_admin
connect_admin_third = refl
