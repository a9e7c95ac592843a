-- ===== src/Provider/Producer.antt =====
-- The loop of `run` in data-provider/producer.py. The Kafka client is a parameter that says what
-- becomes of each send_event; its callbacks are run at once, since the counters only add up.
-- time.sleep, which may raise, is a parameter too.
pub mod Counts
pub mod Accounts
pub mod Tests
use radiation_tracking.Prelude.{
  ℕ, ◌+◌, String, Bool, true, false, Option, none, some, List, [], ◌∷◌, ◌++◌, str_eq, if◌then◌else◌,
}
use radiation_tracking.Python.{
  Number, Value, null, bool, num, str, arr, obj, Fields, get, index, put, Result, ok, raise,
  type_error, ◌>>=◌,
}
use radiation_tracking.Provider.Rows.{CsvRow}
use radiation_tracking.Provider.Mapper.{row_to_event}
use radiation_tracking.Provider.Metrics.{
  ProducerMetrics, record_sent, record_discarded, record_error, record_bytes,
}
use radiation_tracking.Provider.SensorClassifier.{
  Trigonometry, SensorState, SensorType, fixed, mobile, classify_sensor,
}
use radiation_tracking.Provider.Speed.{Speed, apply_speed}

-- What becomes of a send_event: KafkaError, before the value was serialized or after; an acknowledgement;
-- or a failure that the errback counts.
pub data Delivery : Type 0 where
  refused : Bool → Delivery
  delivered : Delivery
  failed : Delivery

-- The variables of `run`, with the messages that reach the topic and the sleeps. `attempts` numbers
-- the sends.
pub record Producer (F : Type 0) : Type 0 where
  pub metrics : ProducerMetrics F
  pub sensors : List (String × SensorState F)
  pub prev_uploaded_ts : Option F
  pub attempts : ℕ
  pub topic : List (String × Fields F)
  pub slept : List F

-- `compression_type or None`, and None for "none"
unfoldable pub compression_of : Option String → Option String
compression_of none = none
compression_of (some text) =
    if str_eq text "" then none else if str_eq text "none" then none else some text

module _ {F : Type 0} where
  unfoldable pub a_text : Value F → Result String
  a_text (str s) = ok s
  a_text _ = raise type_error

  unfoldable pub a_number : Value F → Result F
  a_number (num x) = ok x
  a_number _ = raise type_error

  abbrev pub text_if : Value F → Option String
  text_if (str s) = some s
  text_if _ = none

  unfoldable pub sensor_label : SensorType → Value F
  sensor_label fixed = str "fixed"
  sensor_label mobile = str "mobile"

  abbrev pub sleeps_of : Option F → List F
  sleeps_of none = []
  sleeps_of (some delay) = delay ∷ []

  -- `time.sleep`, where it is called.
  abbrev pub pause : (F → Result (Unit {0})) → Option F → Result (Unit {0})
  pause sleep none = ok tt
  pause sleep (some delay) = sleep delay

  -- The counters and the topic after a send_event.
  unfoldable pub send_event :
      ℕ
      → Option F
      → Delivery
      → String × Fields F
      → ProducerMetrics F × List (String × Fields F)
      → ProducerMetrics F × List (String × Fields F)
  unfolding record_error record_sent record_bytes
  send_event size uploaded_ts (refused serialized) message (metrics, topic) =
      (record_error (if serialized then record_bytes metrics size else metrics), topic)
  send_event size uploaded_ts delivered message (metrics, topic) =
      (record_sent (record_bytes metrics size) uploaded_ts, topic ++ (message ∷ []))
  send_event size uploaded_ts failed message (metrics, topic) =
      (record_sent (record_error (record_bytes metrics size)) uploaded_ts, topic)

module _ {F : Type 0} ⦃n : Number F⦄ (trig : Trigonometry F) (threshold_m : F)
    (hexdigest : String → String) (parse_uploaded : Option String → Option F)
    (size_of : Fields F → ℕ) (deliver : ℕ → Delivery) (speed : Speed F)
    (sleep : F → Result (Unit {0})) where
  -- `event["sensor_type"] = classifier.classify(…)`
  unfoldable pub tag_event :
      List (String × SensorState F)
      → Fields F
      → Result (List (String × SensorState F) × String × Fields F)
  unfolding a_text a_number sensor_label index
  tag_event sensors event = do
    sensor_id ← index event "sensor_id" >>= a_text
    latitude ← index event "latitude" >>= a_number
    longitude ← index event "longitude" >>= a_number
    let tagged = classify_sensor trig threshold_m sensors sensor_id latitude longitude
    ok (tagged.0, sensor_id, put event "sensor_type" (sensor_label tagged.1))

  -- The rest of a round, for an event that is tagged.
  unfoldable pub publish_event :
      Producer F → List (String × SensorState F) × String × Fields F → Result (Producer F)
  unfolding send_event apply_speed
  publish_event p (sensors, sensor_id, event) =
      let uploaded_ts = parse_uploaded (text_if (get event "uploaded_at")) in
      let (metrics, topic) =
        send_event (size_of event) uploaded_ts (deliver p.attempts) (sensor_id, event)
          (p.metrics, p.topic) in
      do
        delay ← apply_speed speed uploaded_ts p.prev_uploaded_ts
        _ ← pause sleep delay
        ok (record {
          metrics = metrics;
          sensors = sensors;
          prev_uploaded_ts = uploaded_ts;
          attempts = p.attempts + 1;
          topic = topic;
          slept = p.slept ++ sleeps_of delay;
        })

  unfoldable pub produce_event : Producer F → Option (Fields F) → Result (Producer F)
  unfolding record_discarded tag_event publish_event
  produce_event p none = ok (record p { metrics = record_discarded p.metrics })
  produce_event p (some event) = tag_event p.sensors event >>= publish_event p

  -- The loop over the rows.
  unfoldable pub produce : Producer F → List CsvRow → Result (Producer F)
  unfolding produce_event
  produce p [] = ok p
  produce p (row ∷ rows) = do p' ← produce_event p (row_to_event hexdigest row); produce p' rows
