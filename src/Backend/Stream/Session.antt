-- ===== src/Backend/Stream/Session.antt =====
-- backend/app/routers/stream.py, stream: a connection from its snapshot to its end, among the steps of the
-- consumer and of the other connections, which may also fall between `subscribe` and the reading of
-- the snapshot.
use radiation_tracking.Prelude.{
  ℕ, ◌==◌, String, Bool, true, false, Option, none, some, List, [], ◌∷◌, ◌++◌, map, if◌then◌else◌,
}
use radiation_tracking.Prelude.Int.{ℤ}
use radiation_tracking.Python.{Number, Result, ok, raise, Datetime, Value}
use radiation_tracking.Backend.RingBuffer.{recent}
use radiation_tracking.Backend.Broadcaster.Subscribers.{KeyEq, Subscriber, drain}
use radiation_tracking.Backend.Broadcaster.{Message, MessageKey, subscribe, unsubscribe}
use radiation_tracking.Backend.KafkaConsumer.{Msg, Topics, Codec, World, dispatch}
use radiation_tracking.Backend.Stream.{origin_allowed, handle_frame}

-- The subscriber of a handle.
abbrev pub client_of {ℓ} : {S : Type ℓ} → ℕ → List (ℕ × S) → Option S
client_of h [] = none
client_of h ((i, s) ∷ clients) = if i == h then some s else client_of h clients

-- A change of the subscriber that a handle stands for.
abbrev pub alter_client {ℓ} : {S : Type ℓ} → (S → S) → ℕ → List (ℕ × S) → List (ℕ × S)
alter_client f h [] = []
alter_client f h ((i, s) ∷ clients) =
    if i == h then (i, f s) ∷ clients else (i, s) ∷ alter_client f h clients

-- A connection that is refused, closed with 1008, or open: its handle, and what was sent to it.
pub data Opening (F E : Type 0) : Type 0 where
  refused : Opening F E
  opened : ℕ → List (Message F) → World F E → Opening F E

-- What the rest of the backend does while a connection is open: the consumer handles a message, or
-- another client comes or goes.
pub data OtherStep : Type 0 where
  handled : Msg → OtherStep
  joined : OtherStep
  left : ℕ → OtherStep

-- Such a step, or the connection's own send loop flushes, or it receives a frame.
pub data SessionStep : Type 0 where
  other : OtherStep → SessionStep
  flushed : SessionStep
  received : Option String → SessionStep

abbrev pub raises {ℓ} : {A : Type ℓ} → Result A → Bool
raises (ok a) = false
raises (raise x) = true

module _ {F : Type 0} where
  -- One round of `_drain_to_client` on a subscriber: what it sends, and what is left.
  unfoldable pub drained : Option (Subscriber (MessageKey F) (Message F)) → List (Message F)
  drained none = []
  drained (some s) = (drain s).0

  abbrev pub after_frame :
      Subscriber (MessageKey F) (Message F)
      → Result (Subscriber (MessageKey F) (Message F))
      → Subscriber (MessageKey F) (Message F)
  after_frame s (ok s') = s'
  after_frame s (raise x) = s

module _ {F E : Type 0} (codec : Codec F E) where
  -- `{"type": "clean", "data": …}`
  abbrev pub clean_message : E → Message F
  clean_message event = record { kind = "clean"; payload = codec.model_dump event }

  -- The `finally` clause.
  unfoldable pub close_stream : ℕ → World F E → World F E
  unfolding unsubscribe
  close_stream handle w = record w { broadcaster = unsubscribe w.broadcaster handle }

  -- A change of the connection's own subscriber.
  abbrev pub with_client :
      (Subscriber (MessageKey F) (Message F) → Subscriber (MessageKey F) (Message F))
      → ℕ
      → World F E
      → World F E
  with_client f h w = record w {
    broadcaster = record w.broadcaster { subscribers = alter_client f h w.broadcaster.subscribers };
  }

  module _ {D : Type 0} ⦃n : Number F⦄ ⦃k : KeyEq F⦄ (t : Datetime D) (topics : Topics)
      (loads : String → Result (Value F)) where
    unfoldable pub other_step : OtherStep → World F E → World F E
    unfolding dispatch subscribe unsubscribe
    other_step (handled msg) w = (dispatch codec topics w msg).1
    other_step joined w = record w { broadcaster = (subscribe w.broadcaster).1 }
    other_step (left i) w = record w { broadcaster = unsubscribe w.broadcaster i }

    unfoldable pub other_steps : List OtherStep → World F E → World F E
    unfolding other_step
    other_steps [] w = w
    other_steps (step ∷ steps) w = other_steps steps (other_step step w)

    -- The opening: refused for the origin; or subscribed, and then sent the snapshot, which is read
    -- after whatever else runs in between.
    unfoldable pub open_stream :
        List String → ℤ → Option String → List OtherStep → World F E → Opening F E
    unfolding origin_allowed subscribe recent other_steps
    open_stream allowed limit origin between w =
        let (handle, broadcaster) = subscribe w.broadcaster in
        let w' = other_steps between (record w { broadcaster = broadcaster }) in
        if origin_allowed allowed origin
        then opened handle (map clean_message (recent w'.buffer limit)) w'
        else refused

    abbrev pub frame_raises : Option String → Option (Subscriber (MessageKey F) (Message F)) → Bool
    frame_raises text none = false
    frame_raises text (some s) = raises (handle_frame t loads s text)

    -- Whether a step ends the connection: an exception of the receive loop does.
    unfoldable pub ends : ℕ → SessionStep → World F E → Bool
    unfolding handle_frame
    ends h (received text) w = frame_raises text (client_of h w.broadcaster.subscribers)
    ends h _ w = false

    -- A step, with what the connection has been sent.
    unfoldable pub session_step :
        ℕ → SessionStep → List (Message F) × World F E → List (Message F) × World F E
    unfolding other_step drained handle_frame
    session_step h (other step) (sent, w) = (sent, other_step step w)
    session_step h flushed (sent, w) = (
      sent ++ drained (client_of h w.broadcaster.subscribers),
      with_client (λ s. (drain s).1) h w,
    )
    session_step h (received text) (sent, w) =
        (sent, with_client (λ s. after_frame s (handle_frame t loads s text)) h w)

    unfoldable pub session :
        ℕ → List SessionStep → List (Message F) × World F E → List (Message F) × World F E
    unfolding session_step ends
    session h [] c = c
    session h (step ∷ steps) c =
        let rest = session h steps (session_step h step c) in if ends h step c.1 then c else rest

    abbrev closed_with : ℕ → List (Message F) × World F E → Option (List (Message F)) × World F E
    closed_with h (sent, w) = (some sent, close_stream h w)

    -- A connection whose steps are given: what it was sent, unless it was refused, and the world after it.
    unfoldable pub stream :
        List String
        → ℤ
        → Option String
        → List OtherStep
        → List SessionStep
        → World F E
        → Option (List (Message F)) × World F E
    unfolding open_stream session close_stream
    stream allowed limit origin between steps w =
        elim (open_stream allowed limit origin between w) [
          | refused ↦ (none, w)
          | opened h sent w' ↦ closed_with h (session h steps (sent, w'))
        ]
