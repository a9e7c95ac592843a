-- ===== src/Backend/Broadcaster.antt =====
-- backend/app/core/broadcaster.py: the fan-out of Kafka messages to the WebSocket clients. The
-- subscriber's buffer, over any type of keys and messages, is in Subscribers; here are the keys of
-- the program's messages and the Broadcaster. The set of subscribers is a list of them with the
-- handles that stand for object identity.
pub mod Subscribers
pub mod FanOut
mod Tests
use radiation_tracking.Prelude.{
  ℕ, ◌+◌, String, ◌≡◌, ◌↔◌, Bool, true, false, ◌&&◌, Option, none, some, List, [], ◌∷◌, ◌++◌, arith,
  eq_iff, str_eq, ◌==◌, if◌then◌else◌, filter, not, length,
}
use radiation_tracking.Prelude.Int.{ℤ, pos_part}
use radiation_tracking.Python.{
  Number, Result, ok, raise, type_error, ◌>>=◌, Value, null, bool, num, str, arr, obj, end, is_none,
  truthy, or_else, attribute_get,
}
use radiation_tracking.Backend.Metrics.{BackendMetrics}
use Subscribers.{KeyEq, Subscriber, new_subscriber, offer}

-- The typed envelope of a message.
pub record Message (F : Type 0) : Type 0 where
  pub kind : String
  pub payload : Value F

-- What a dictionary key compares by: True is 1, and lists and dicts have no hash.
pub data HashKey (F : Type 0) : Type 0 where
  text : String → HashKey F
  number : F → HashKey F

pub record MessageKey (F : Type 0) : Type 0 where
  pub stream : String
  pub id : HashKey F

module _ {F : Type 0} ⦃n : Number F⦄ where
  unfoldable pub hashed : Value F → Result (HashKey F)
  hashed (str s) = ok (text s)
  hashed (num x) = ok (number x)
  hashed (bool true) = ok (number (n.of_ℕ 1))
  hashed (bool false) = ok (number (n.of_ℕ 0))
  hashed _ = raise type_error

  -- `(stream, id) if id is not None else None`, with the hash that the lookup takes of it.
  unfoldable pub key_in : String → Value F → Result (Option (MessageKey F))
  key_in stream v =
      if is_none v then ok none else do h ← hashed v; ok (some (record { stream = stream; id = h }))

  -- `data.get("geohash") or data.get("bucket")`
  unfoldable pub bucket_of : Value F → Result (Value F)
  bucket_of d = do
    geohash ← attribute_get d "geohash"
    if truthy geohash then ok geohash else attribute_get d "bucket"

  unfoldable pub coalesce_key : Message F → Result (Option (MessageKey F))
  coalesce_key message =
      let d = or_else message.payload (obj end) in
      if str_eq message.kind "clean"
      then (do sensor_id ← attribute_get d "sensor_id"; key_in "clean" sensor_id)
      else if str_eq message.kind "aggregated"
      then (do bucket ← bucket_of d; key_in "aggregated" bucket)
      else ok none

module _ {F : Type 0} ⦃k : KeyEq F⦄ where
  unfoldable pub hash_beq : HashKey F → HashKey F → Bool
  hash_beq (text s) (text t) = str_eq s t
  hash_beq (number x) (number y) = k.beq x y
  hash_beq _ _ = false

  hash_beq_iff : (a b : HashKey F) → (hash_beq a b ≡ true) ↔ (a ≡ b)
  unfolding hash_beq
  hash_beq_iff (text s) (text t) = ground (arith, eq_iff s t)
  hash_beq_iff (text s) (number y) = ground arith
  hash_beq_iff (number x) (text t) = ground arith
  hash_beq_iff (number x) (number y) = ground (arith, k.beq_iff x y)

  unfoldable pub key_beq : MessageKey F → MessageKey F → Bool
  key_beq a b = str_eq a.stream b.stream && hash_beq a.id b.id

  pub key_beq_iff : (a b : MessageKey F) → (key_beq a b ≡ true) ↔ (a ≡ b)
  unfolding key_beq
  key_beq_iff a b = ground (arith, eq_iff a.stream b.stream, hash_beq_iff a.id b.id)

  instance abbrev pub message_key_eq : KeyEq (MessageKey F)
  message_key_eq = record { beq = key_beq; beq_iff = key_beq_iff }

-- Subscribers with their handles.
abbrev pub Clients : Type 0 → Type 0
Clients F = List (ℕ × Subscriber (MessageKey F) (Message F))

-- The interval is kept in milliseconds.
pub record Broadcaster (F : Type 0) : Type 0 where
  pub max_pending : ℕ
  pub coalesced_maxsize : ℕ
  pub flush_interval : ℕ
  pub subscribers : Clients F
  pub next_handle : ℕ

module _ {F : Type 0} where
  -- A negative interval counts as 0.
  unfoldable pub new_broadcaster : ℕ → ℤ → ℕ → Broadcaster F
  new_broadcaster queue_maxsize flush_interval_ms coalesced_maxsize = record {
    max_pending = queue_maxsize;
    coalesced_maxsize = coalesced_maxsize;
    flush_interval = pos_part flush_interval_ms;
    subscribers = [];
    next_handle = 0;
  }

  unfoldable pub subscribe : Broadcaster F → ℕ × Broadcaster F
  subscribe b = (
    b.next_handle,
    record b {
      subscribers =
          b.subscribers ++ (b.next_handle, new_subscriber b.max_pending b.coalesced_maxsize) ∷ [];
      next_handle = b.next_handle + 1;
    },
  )

  unfoldable pub unsubscribe : Broadcaster F → ℕ → Broadcaster F
  unsubscribe b handle = record b {
    subscribers =
        filter (λ (s : ℕ × Subscriber (MessageKey F) (Message F)). not (s.0 == handle))
          b.subscribers;
  }

  unfoldable pub subscriber_count : Broadcaster F → ℕ
  subscriber_count b = length b.subscribers

module _ {F : Type 0} ⦃n : Number F⦄ ⦃k : KeyEq F⦄ where
  -- The loop of `publish`. An exception leaves the subscribers that were served as they are then.
  unfoldable pub publish_each :
      BackendMetrics → Clients F → Message F → Result (Unit {0}) × BackendMetrics × Clients F
  publish_each metrics [] message = (ok tt, metrics, [])
  publish_each metrics ((h, s) ∷ rest) message =
      let (r, metrics', s') = offer coalesce_key metrics s message in
      let (r'', metrics'', rest'') = publish_each metrics' rest message in
      elim r [
        | raise x ↦ (raise x, metrics', (h, s') ∷ rest)
        | ok _ ↦ (r'', metrics'', (h, s') ∷ rest'')
      ]

  unfoldable pub publish :
      BackendMetrics
      → Broadcaster F
      → Message F
      → Result (Unit {0}) × BackendMetrics × Broadcaster F
  unfolding publish_each
  publish metrics b message =
      let (r, metrics', clients) = publish_each metrics b.subscribers message in
      (r, metrics', record b { subscribers = clients })
