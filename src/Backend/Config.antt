-- ===== src/Backend/Config.antt =====
-- backend/app/routers/config.py and backend/app/core/kafka_producer.py: the settings that clients
-- write, and their publication on config.updates. The broker's answers are inputs.
pub mod Writes
pub mod Agreement
pub mod Tests
use radiation_tracking.Prelude.{
  ℕ, String, Bool, true, false, not, ◌&&◌, ◌||◌, Option, none, some, List, [], ◌∷◌, ◌++◌, str_eq,
  if◌then◌else◌,
}
use radiation_tracking.Python.{
  Number, Result, ok, raise, type_error, value_error, Datetime, Value, num, str, obj, Fields, field,
  end,
}
use radiation_tracking.Backend.Metrics.{
  BackendMetrics, record_config_publish, record_config_publish_failure,
}

pub record AreaFilter (F : Type 0) : Type 0 where
  pub min_lat : F
  pub max_lat : F
  pub min_lon : F
  pub max_lon : F

pub record TimespanFilter (D : Type 0) : Type 0 where
  pub start : D
  pub stop : D

pub record ConfigPayload (F D : Type 0) : Type 0 where
  pub cpm_warn_threshold : Option F
  pub cpm_danger_threshold : Option F
  pub area : Option (AreaFilter F)
  pub timespan : Option (TimespanFilter D)

pub record ConfigResponse (F D : Type 0) : Type 0 where
  pub cpm_warn_threshold : F
  pub cpm_danger_threshold : F
  pub area : Option (AreaFilter F)
  pub timespan : Option (TimespanFilter D)

-- What a request is answered: 202 with the settings, or an error.
pub data Response (F D : Type 0) : Type 0 where
  accepted : ConfigResponse F D → Response F D
  http_error : ℕ → Response F D

-- The token as configured, and as the header has it. `ascii` tells whether compare_digest takes the
-- header; it raises TypeError otherwise, which is answered 500.
unfoldable pub require_write_auth : (String → Bool) → Option String → Option String → Option ℕ
require_write_auth ascii none header = none
require_write_auth ascii (some expected) none = if str_eq expected "" then none else some 401
require_write_auth ascii (some expected) (some token) =
    if str_eq expected ""
    then none
    else if not (ascii token && ascii expected)
    then some 500
    else if str_eq token expected
    then none
    else some 403

module _ {F : Type 0} ⦃n : Number F⦄ where
  abbrev pub within : ℕ → F → Bool
  within k x = n.le (n.neg (n.of_ℕ k)) x && n.le x (n.of_ℕ k)

  -- The fields' bounds and lat_lon_order.
  unfoldable pub area_is_valid : AreaFilter F → Bool
  area_is_valid a =
      within 90 a.min_lat
      && within 90 a.max_lat
      && within 180 a.min_lon
      && within 180 a.max_lon
      && not (n.le a.max_lat a.min_lat)
      && not (n.le a.max_lon a.min_lon)

  abbrev pub is_positive : Option F → Bool
  is_positive none = true
  is_positive (some x) = n.lt n.zero x

  -- threshold_order
  unfoldable pub threshold_order : Option F → Option F → Bool
  threshold_order (some warn) (some danger) = not (n.le danger warn)
  threshold_order _ _ = true

module _ {D : Type 0} (t : Datetime D) where
  -- time_order: a comparison of a time with an offset and one without raises TypeError.
  unfoldable pub time_order : TimespanFilter D → Result (Unit {0})
  time_order s =
      if (t.is_naive s.start && not (t.is_naive s.stop))
        || (t.is_naive s.stop && not (t.is_naive s.start))
      then raise type_error
      else if t.le s.stop s.start
      then raise value_error
      else ok tt

module _ {F : Type 0} ⦃n : Number F⦄ where
  abbrev pub area_check : Option (AreaFilter F) → Bool
  area_check none = true
  area_check (some a) = area_is_valid a

module _ {D : Type 0} (t : Datetime D) where
  abbrev pub span_check : Option (TimespanFilter D) → Result (Unit {0})
  span_check none = ok tt
  span_check (some s) = time_order t s

abbrev pub payload_status : Result (Unit {0}) → Bool → Option ℕ
payload_status (ok x) true = none
payload_status (raise type_error) valid = some 500
payload_status _ _ = some 422

module _ {F D : Type 0} ⦃n : Number F⦄ (t : Datetime D) where
  -- What the validation of the body answers where it fails: pydantic turns a ValueError into 422, and
  -- leaves a TypeError, which is answered 500.
  unfoldable pub validate_payload : ConfigPayload F D → Option ℕ
  validate_payload payload = payload_status (span_check t payload.timespan) (
      is_positive payload.cpm_warn_threshold
      && is_positive payload.cpm_danger_threshold
      && area_check payload.area
      && threshold_order payload.cpm_warn_threshold payload.cpm_danger_threshold)

abbrev pub or_current {ℓ} : {A : Type ℓ} → Option A → A → A
or_current none current = current
or_current (some x) current = x

abbrev pub or_current_option {ℓ} : {A : Type ℓ} → Option A → Option A → Option A
or_current_option none current = current
or_current_option (some x) current = some x

module _ {F D : Type 0} where
  -- _active_config.model_copy(update=update_fields)
  unfoldable pub merge : ConfigResponse F D → ConfigPayload F D → ConfigResponse F D
  merge active payload = record {
    cpm_warn_threshold = or_current payload.cpm_warn_threshold active.cpm_warn_threshold;
    cpm_danger_threshold = or_current payload.cpm_danger_threshold active.cpm_danger_threshold;
    area = or_current_option payload.area active.area;
    timespan = or_current_option payload.timespan active.timespan;
  }

module _ {F : Type 0} where
  abbrev pub dump_area : AreaFilter F → Value F
  dump_area a = obj (
      field "min_lat" (num a.min_lat) (
        field "max_lat" (num a.max_lat)
          (field "min_lon" (num a.min_lon) (field "max_lon" (num a.max_lon) end))))

  abbrev pub optional_field {ℓ} :
      {A : Type ℓ} → String → (A → Value F) → Option A → Fields F → Fields F
  optional_field key dump none rest = rest
  optional_field key dump (some x) rest = field key (dump x) rest

module _ {F D : Type 0} (t : Datetime D) where
  -- _serialize_dt gives the texts.
  abbrev pub dump_timespan : TimespanFilter D → Value F
  dump_timespan s =
      obj (field "start" (str (t.isoformat s.start)) (field "end" (str (t.isoformat s.stop)) end))

  -- updated.model_dump(mode="json", exclude_none=True)
  unfoldable pub model_dump : ConfigResponse F D → Fields F
  model_dump c = field "cpm_warn_threshold" (num c.cpm_warn_threshold) (
      field "cpm_danger_threshold" (num c.cpm_danger_threshold) (
        optional_field "area" dump_area c.area
          (optional_field "timespan" dump_timespan c.timespan end)))

-- What becomes of send_and_wait: it returns; or KafkaError is raised, after the message was written,
-- where only its acknowledgement is lost, or without that.
pub data Answer : Type 0 where
  acknowledged : Answer
  ack_lost : Answer
  not_written : Answer

-- The producer, and the messages that are written on config.updates.
pub record ConfigProducer : Type 0 where
  pub available : Bool
  pub status : String
  pub published : List String
  pub metrics : BackendMetrics

-- ConfigProducer.start: whether it is enabled, and whether the broker is reached.
unfoldable pub start_producer : Bool → Bool → ConfigProducer → ConfigProducer
start_producer enabled reachable p =
    if not enabled
    then record p { status = "disabled" }
    else if reachable
    then record p { available = true; status = "available" }
    else record p { status = "degraded" }

-- ConfigProducer.stop
unfoldable pub stop_producer : ConfigProducer → ConfigProducer
stop_producer p = if p.available then record p { available = false; status = "stopped" } else p

-- What follows `send_and_wait`, whether it returns or raises KafkaError.
unfoldable pub after_send : Answer → ConfigProducer → String → Bool × ConfigProducer
after_send acknowledged p value = (
  true,
  record p { published = p.published ++ value ∷ []; metrics = record_config_publish p.metrics },
)
after_send ack_lost p value = (
  false,
  record p {
    published = p.published ++ value ∷ [];
    metrics = record_config_publish_failure p.metrics;
  },
)
after_send not_written p value =
    (false, record p { metrics = record_config_publish_failure p.metrics })

-- ConfigProducer.publish: whether it returns, or else raises ConfigPublishError. `dumps` is
-- json.dumps.
unfoldable pub publish_config :
    {F : Type 0} → (Fields F → String) → Answer → ConfigProducer → Fields F → Bool × ConfigProducer
unfolding after_send
publish_config dumps answer p message =
    if not p.available
    then (false, record p { metrics = record_config_publish_failure p.metrics })
    else after_send answer p (dumps message)

pub record ConfigState (F D : Type 0) : Type 0 where
  pub active : ConfigResponse F D
  pub producer : ConfigProducer

module _ {F D : Type 0} where
  -- What the dependency or the validation raises is answered, and the handler is not called.
  abbrev pub refused_or :
      Option ℕ → ConfigState F D → Response F D × ConfigState F D → Response F D × ConfigState F D
  refused_or none s r = r
  refused_or (some code) s r = (http_error code, s)

module _ {F D : Type 0} ⦃n : Number F⦄ (t : Datetime D) (dumps : Fields F → String) where
  -- What follows a publication: the commit, or 503.
  unfoldable pub commit :
      ConfigState F D → ConfigResponse F D → Bool × ConfigProducer → Response F D × ConfigState F D
  commit s updated (true, p) = (accepted updated, record { active = updated; producer = p })
  commit s updated (false, p) = (http_error 503, record { active = s.active; producer = p })

  -- update_config, which the lock makes one step.
  unfoldable pub update_config :
      Answer → ConfigState F D → ConfigPayload F D → Response F D × ConfigState F D
  unfolding commit
  update_config answer s payload =
      let updated = merge s.active payload in
      if n.le updated.cpm_danger_threshold updated.cpm_warn_threshold
      then (http_error 422, s)
      else commit s updated (publish_config dumps answer s.producer (model_dump t updated))

  -- POST /config: the dependency, the validation of the body, then the handler.
  unfoldable pub post_config :
      (String → Bool)
      → Option String
      → Option String
      → Answer
      → ConfigState F D
      → ConfigPayload F D
      → Response F D × ConfigState F D
  post_config ascii expected header answer s payload =
      refused_or (require_write_auth ascii expected header) s
        (refused_or (validate_payload t payload) s (update_config answer s payload))
