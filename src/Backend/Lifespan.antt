-- ===== src/Backend/Lifespan.antt =====
-- backend/app/main.py, lifespan, and backend/app/routers/health.py: how the components of the backend are
-- started and stopped, and what /health reports in between.
pub mod Shutdown
mod Tests
use radiation_tracking.Prelude.{
  ℕ, String, Bool, true, false, ◌||◌, Option, none, some, List, str_eq, if◌then◌else◌,
}
use radiation_tracking.Prelude.Int.{ℤ}
use radiation_tracking.Python.{Number, Result, ok, raise}
use radiation_tracking.Backend.Broadcaster.Subscribers.{KeyEq}
use radiation_tracking.Backend.Broadcaster.{subscriber_count}
use radiation_tracking.Backend.Config.{ConfigProducer, start_producer, stop_producer}
use radiation_tracking.Backend.KafkaConsumer.{Msg, Topics, Codec, World, consume_loop}
use radiation_tracking.Backend.KafkaConsumer.Lifecycle.{
  Start, Lifecycle, start_consumer, stop_consumer,
}
use radiation_tracking.Backend.Topics.{TopicSettings, ensure_topics}
use radiation_tracking.Backend.History.{connect_pool}

-- The settings that the start reads.
pub record StartSettings : Type 0 where
  pub topics : TopicSettings
  pub kafka_producer_enabled : Bool
  pub kafka_consumer_enabled : Bool
  pub history_enabled : Bool
  pub history_connect_retry_attempts : ℤ

-- What the broker and Postgres do at the start: which attempts of the admin client and of the pool
-- succeed, whether the producer and the consumer connect, and what creating topics leaves.
pub record Outside : Type 0 where
  pub admin_up : ℕ → Bool
  pub create_topics : List String → List String → List String
  pub producer_up : Bool
  pub consumer_start : Start
  pub pool_up : ℕ → Bool

-- The module-level objects of the backend, the topics of the broker, and the task of the consumer
-- as it has ended so far, where there is one.
pub record Backend (F E : Type 0) : Type 0 where
  pub broker_topics : List String
  pub producer : ConfigProducer
  pub consumer : Lifecycle
  pub task : Option (Result (Unit {0}))
  pub pool : Option ℕ
  pub world : World F E

pub record HealthResponse : Type 0 where
  pub status : String
  pub kafka_consumer : String
  pub config_producer : String
  pub ws_clients : ℕ

module _ {F E : Type 0} where
  -- The part of `lifespan` before its `yield`.
  unfoldable pub startup : StartSettings → Outside → Backend F E → Backend F E
  unfolding ensure_topics start_producer start_consumer connect_pool
  startup s o b =
      let (handle, consumer) =
        start_consumer s.kafka_consumer_enabled o.consumer_start b.consumer in
      record b {
        broker_topics = ensure_topics o.admin_up o.create_topics s.topics b.broker_topics;
        producer = start_producer s.kafka_producer_enabled o.producer_up b.producer;
        consumer = consumer;
        task = if handle then some (ok tt) else none;
        pool = (connect_pool o.pool_up s.history_enabled s.history_connect_retry_attempts).0;
      }

  -- `health_check`
  unfoldable pub health_check : Backend F E → HealthResponse
  unfolding subscriber_count
  health_check b =
      let degraded = str_eq b.consumer.status "degraded" || str_eq b.producer.status "degraded" in
      record {
        status = if degraded then "degraded" else "ok";
        kafka_consumer = b.consumer.status;
        config_producer = b.producer.status;
        ws_clients = subscriber_count b.world.broadcaster;
      }

  -- After the `yield`: an exception leaves the steps after it undone.
  unfoldable pub shutdown : Backend F E → Result (Unit {0}) × Backend F E
  unfolding stop_consumer stop_producer
  shutdown b =
      let (r, consumer) = stop_consumer b.task b.consumer in
      let b' = record b { pool = none; consumer = consumer } in
      elim r [
        | raise x ↦ (raise x, b')
        | ok _ ↦ (ok tt, record b' { producer = stop_producer b.producer })
      ]

module _ {F E : Type 0} ⦃n : Number F⦄ ⦃k : KeyEq F⦄ (codec : Codec F E) where
  -- While the backend serves: the task of the consumer, if it was started, handles the messages.
  unfoldable pub serve : Topics → List Msg → Backend F E → Backend F E
  unfolding consume_loop
  serve topics messages b =
      let (r, world) = consume_loop codec topics b.world messages in
      elim b.task [ none ↦ b | some _ ↦ record b { task = some r; world = world } ]
