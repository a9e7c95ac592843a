-- ===== src/Backend/Lifespan/Shutdown.antt =====
-- What /health reports while the backend serves, and what a shutdown leaves open.
use radiation_tracking.Prelude.{
  String, ◌≡◌, refl, ap₂, ◌∙◌, Bool, true, false, not, ◌&&◌, ◌||◌, none, List, str_eq,
  if◌then◌else◌, inl, inr, arith,
}
use radiation_tracking.Python.{Number, Result, ok, raise, Result-cases}
use radiation_tracking.Backend.Broadcaster.Subscribers.{KeyEq}
use radiation_tracking.Backend.Config.{start_producer, stop_producer}
use radiation_tracking.Backend.KafkaConsumer.{Msg, Topics, Codec, consume_loop}
use radiation_tracking.Backend.KafkaConsumer.Lifecycle.{
  Client, unopened, connected, Start, connects, unreachable, start_consumer, stop_consumer,
}
use radiation_tracking.Backend.Lifespan.{
  StartSettings, Outside, Backend, startup, health_check, serve, shutdown,
}

-- Before the start.
pub record IsFresh {F E : Type 0} (b : Backend F E) : Type 0 where
  pub no_producer : b.producer.available ≡ false
  pub no_client : b.consumer.client ≡ unopened

abbrev pub reached : Start → Bool
reached connects = true
reached unreachable = false

abbrev pub is_connected : Client → Bool
is_connected connected = true
is_connected _ = false

abbrev pub has_raised : Result (Unit {0}) → Bool
has_raised (ok _) = false
has_raised (raise x) = true

-- The status of a Kafka component by its setting and by whether the broker was reached.
abbrev pub status_of : String → Bool → Bool → String
status_of up enabled reached = if enabled then (if reached then up else "degraded") else "disabled"

-- The status of the whole.
abbrev overall : String → String → String
overall consumer producer =
    if str_eq consumer "degraded" || str_eq producer "degraded" then "degraded" else "ok"

overall-status_of :
    (e r e' r' : Bool)
    → overall (status_of "running" e r) (status_of "available" e' r')
      ≡ (if (e && not r) || (e' && not r') then "degraded" else "ok")
overall-status_of true true true true = refl
overall-status_of true true true false = refl
overall-status_of true true false r' = refl
overall-status_of true false e' r' = refl
overall-status_of false r true true = refl
overall-status_of false r true false = refl
overall-status_of false r false r' = refl

module _ {F E : Type 0} ⦃n : Number F⦄ ⦃k : KeyEq F⦄ (codec : Codec F E) (topics : Topics) where
  -- The start, any messages, and the stop of a fresh backend. Until the stop /health tells of each
  -- Kafka component what its start came to, also where the consume loop has raised since, and the
  -- whole is degraded exactly if one of them could not reach the broker. The stop raises exactly what
  -- the consume loop has raised, and then, and only then, the consumer's client stays connected, and
  -- the producer too, if it was started; the pool is always closed.
  pub shutdown_lem :
      (s : StartSettings) (o : Outside) (b : Backend F E) (fresh : IsFresh b) (messages : List Msg)
      → let serving = serve codec topics messages (startup s o b) in
        let runs = s.kafka_consumer_enabled && reached o.consumer_start in
        let outcome = if runs then (consume_loop codec topics b.world messages).0 else ok tt in
        let produces = s.kafka_producer_enabled && o.producer_up in
        let (result, stopped) = shutdown serving in
        ((health_check serving).kafka_consumer
          ≡ status_of "running" s.kafka_consumer_enabled (reached o.consumer_start))
        × ((health_check serving).config_producer
            ≡ status_of "available" s.kafka_producer_enabled o.producer_up)
        × ((health_check serving).status ≡ (
            if (s.kafka_consumer_enabled && not (reached o.consumer_start))
              || (s.kafka_producer_enabled && not o.producer_up)
            then "degraded"
            else "ok"))
        × (result ≡ outcome)
        × (is_connected stopped.consumer.client ≡ has_raised outcome)
        × (stopped.producer.available ≡ (produces && has_raised outcome))
        × (stopped.pool ≡ none)
  unfolding startup serve health_check shutdown start_consumer stop_consumer start_producer
      stop_producer
  shutdown_lem s o b fresh messages =
      let serving : Backend F E = serve codec topics messages (startup s o b) in
      let consumer : serving.consumer.status
          ≡ status_of "running" s.kafka_consumer_enabled (reached o.consumer_start) =
        ground arith in
      let producer : serving.producer.status
          ≡ status_of "available" s.kafka_producer_enabled o.producer_up =
        ground arith in
      let whole =
        ap₂ overall consumer producer
        ∙ overall-status_of s.kafka_consumer_enabled (reached o.consumer_start)
            s.kafka_producer_enabled o.producer_up in
      elim (Result-cases (consume_loop codec topics b.world messages).0) [
        | inl (a, e) ↦ (
          consumer,
          producer,
          whole,
          ground (arith, e),
          ground (arith, e),
          ground (arith, e),
          ground (arith, e),
        )
        | inr (x, e) ↦ (
          consumer,
          producer,
          whole,
          ground (arith, e),
          ground (arith, e),
          ground (arith, e),
          ground (arith, e),
        )
      ]
