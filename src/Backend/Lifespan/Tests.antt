-- ===== src/Backend/Lifespan/Tests.antt =====
-- A backend whose consumer meets a message that it does not survive.
use radiation_tracking.Prelude.{◌≡◌, refl, String, true, false, none, [], ◌∷◌}
use radiation_tracking.Prelude.Int.{ℤ, pos}
use radiation_tracking.Python.Integers.{integers}
use radiation_tracking.Backend.Metrics.{new_metrics}
use radiation_tracking.Backend.Topics.Tests.{topic_settings, add_topics, from_third}
use radiation_tracking.Backend.KafkaConsumer.{consume_loop}
use radiation_tracking.Backend.KafkaConsumer.Tests.{integer_keys, codec, topics, message, start}
use radiation_tracking.Backend.KafkaConsumer.Lifecycle.{connects, unopened}
use radiation_tracking.Backend.Lifespan.{
  StartSettings, Outside, Backend, startup, serve, health_check, shutdown,
}
use radiation_tracking.Backend.Lifespan.Shutdown.{IsFresh, is_connected, has_raised, shutdown_lem}

abbrev all_enabled : StartSettings
all_enabled = record {
  topics = topic_settings;
  kafka_producer_enabled = true;
  kafka_consumer_enabled = true;
  history_enabled = false;
  history_connect_retry_attempts = pos 3;
}

abbrev all_up : Outside
all_up = record {
  admin_up = from_third;
  create_topics = add_topics;
  producer_up = true;
  consumer_start = connects;
  pool_up = from_third;
}

abbrev fresh : Backend ℤ String
fresh = record {
  broker_topics = [];
  producer = record {
    available = false;
    status = "stopped";
    published = [];
    metrics = new_metrics;
  };
  consumer = record { status = "stopped"; client = unopened };
  task = none;
  pool = none;
  world = start;
}

fresh-IsFresh : IsFresh fresh
fresh-IsFresh = record { no_producer = refl; no_client = refl }

shutdown_lem_example :
    let serving =
      serve codec topics
        (message "radiation.aggregated" "[1]" ∷ [])
        (startup all_enabled all_up fresh) in
    let outcome = (consume_loop codec topics start (message "radiation.aggregated" "[1]" ∷ [])).0 in
    let (result, stopped) = shutdown serving in
    ((health_check serving).kafka_consumer ≡ "running")
    × ((health_check serving).config_producer ≡ "available")
    × ((health_check serving).status ≡ "ok")
    × (result ≡ outcome)
    × (is_connected stopped.consumer.client ≡ has_raised outcome)
    × (stopped.producer.available ≡ has_raised outcome)
    × (stopped.pool ≡ none)
shutdown_lem_example =
    shutdown_lem codec topics all_enabled all_up fresh fresh-IsFresh
      (message "radiation.aggregated" "[1]" ∷ [])
