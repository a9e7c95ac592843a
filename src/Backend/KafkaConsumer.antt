-- ===== src/Backend/KafkaConsumer.antt =====
-- backend/app/core/kafka_consumer.py: the handlers of the three topics and the consume loop. JSON
-- decoding and the pydantic model are parameters, and so is the type of the model's values.
pub mod Lifecycle
pub mod Loop
pub mod Poison
pub mod Tests
use radiation_tracking.Prelude.{
  ℕ, String, Bool, true, false, Option, none, some, List, [], ◌∷◌, str_eq, if◌then◌else◌,
}
use radiation_tracking.Python.{
  Number, Result, ok, raise, Exception, key_error, type_error, value_error, attribute_error,
  json_decode_error, unicode_decode_error, Value,
}
use radiation_tracking.Backend.Metrics.{BackendMetrics, record_consumed, record_malformed}
use radiation_tracking.Backend.RingBuffer
use radiation_tracking.Backend.RingBuffer.{RingBuffer}
use radiation_tracking.Backend.Broadcaster.Subscribers.{KeyEq}
use radiation_tracking.Backend.Broadcaster.{Broadcaster, Message, publish}

-- A Kafka record; a tombstone has no value.
pub record Msg : Type 0 where
  pub topic : String
  pub value : Option String

-- The topics of the settings.
pub record Topics : Type 0 where
  pub clean : String
  pub alerts : String
  pub aggregated : String

-- The libraries that the handlers call.
pub record Codec (F E : Type 0) : Type 0 where
  -- `json.loads`, or the exception that it raises
  pub loads : Option String → Result (Value F)
  -- `RadiationEvent.model_validate_json`, `none` for a ValidationError
  pub model_validate_json : Option String → Option E
  -- `event.model_dump(mode="json")`
  pub model_dump : E → Value F

-- The objects that the handlers change.
pub record World (F E : Type 0) : Type 0 where
  pub metrics : BackendMetrics
  pub buffer : RingBuffer E
  pub broadcaster : Broadcaster F

module _ {F E : Type 0} ⦃n : Number F⦄ ⦃k : KeyEq F⦄ where
  -- `broadcaster.publish({"type": kind, "data": payload})`
  unfoldable pub publish_to : World F E → String → Value F → Result (Unit {0}) × World F E
  publish_to w kind payload =
      let (r, m, b) = publish w.metrics w.broadcaster (record { kind = kind; payload = payload }) in
      (r, record w { metrics = m; broadcaster = b })

  unfoldable pub skip_malformed : World F E → String → Result (Unit {0}) × World F E
  skip_malformed w stream = (ok tt, record w { metrics = record_malformed w.metrics stream })

  unfoldable pub consumed : World F E → String → World F E
  consumed w stream = record w { metrics = record_consumed w.metrics stream }

module _ {F E : Type 0} ⦃n : Number F⦄ ⦃k : KeyEq F⦄ (codec : Codec F E) where
  unfoldable pub handle_clean : World F E → Msg → Result (Unit {0}) × World F E
  handle_clean w msg = elim (codec.model_validate_json msg.value) [
    | none ↦ skip_malformed w "clean"
    | some event ↦
        let w' = consumed w "clean" in
        publish_to (record w' { buffer = RingBuffer.append w'.buffer event }) "clean"
          (codec.model_dump event)
  ]

  -- The common body of the two handlers below: only the decode errors and TypeError are caught.
  unfoldable pub forward :
      World F E → String → String → Result (Value F) → Result (Unit {0}) × World F E
  forward w stream kind (ok payload) = publish_to (consumed w stream) kind payload
  forward w stream kind (raise json_decode_error) = skip_malformed w stream
  forward w stream kind (raise type_error) = skip_malformed w stream
  forward w stream kind (raise x) = (raise x, w)

  unfoldable pub handle_alert : World F E → Msg → Result (Unit {0}) × World F E
  unfolding forward
  handle_alert w msg = forward w "alerts" "alert" (codec.loads msg.value)

  unfoldable pub handle_aggregated : World F E → Msg → Result (Unit {0}) × World F E
  unfolding forward
  handle_aggregated w msg = forward w "aggregated" "aggregated" (codec.loads msg.value)

  -- One round of the loop.
  unfoldable pub dispatch : Topics → World F E → Msg → Result (Unit {0}) × World F E
  dispatch topics w msg =
      if str_eq msg.topic topics.clean
      then handle_clean w msg
      else if str_eq msg.topic topics.alerts
      then handle_alert w msg
      else if str_eq msg.topic topics.aggregated
      then handle_aggregated w msg
      else (ok tt, w)

  -- `async for msg in consumer`, over the messages that arrive. What a round raises ends the loop.
  unfoldable pub consume_loop : Topics → World F E → List Msg → Result (Unit {0}) × World F E
  consume_loop topics w [] = (ok tt, w)
  consume_loop topics w (msg ∷ rest) =
      let (r, w') = dispatch topics w msg in
      elim r [ ok _ ↦ consume_loop topics w' rest | raise x ↦ (raise x, w') ]
