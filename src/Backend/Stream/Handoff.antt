-- ===== src/Backend/Stream/Handoff.antt =====
-- backend/app/routers/stream.py: what a connection is sent, whatever the consumer and the other
-- connections do meanwhile.
use radiation_tracking.Prelude.{
  ℕ, ◌==◌, ◌≡◌, refl, ap, ◌∙◌, String, Bool, false, Option, none, some, List, [], ◌∷◌, ◌++◌, map,
  if◌then◌else◌, Bool-cases, inl, inr,
}
use radiation_tracking.Prelude.Int.{ℤ}
use radiation_tracking.Python.{Number, Result, ok, Datetime, Value}
use radiation_tracking.Backend.RingBuffer.{recent}
use radiation_tracking.Backend.Broadcaster.Subscribers.{KeyEq, Subscriber, new_subscriber, drain}
use radiation_tracking.Backend.Broadcaster.{Message, MessageKey, subscribe, unsubscribe}
use radiation_tracking.Backend.KafkaConsumer.{Topics, Codec, World, dispatch}
use radiation_tracking.Backend.KafkaConsumer.Loop.{published}
use radiation_tracking.Backend.Stream.{origin_allowed, handle_frame}
use radiation_tracking.Backend.Stream.Session.{
  client_of, OtherStep, SessionStep, other, handled, joined, left, flushed, received, drained,
  after_frame, raises, ends, other_step, other_steps, clean_message, open_stream, close_stream,
  session_step, session, stream,
}
use radiation_tracking.Backend.Stream.Published.{
  client_of-alter_client, client_of-append, client_of-last, client_of-filter,
  client_of-unsubscribed, client_of-receive, receive_some, dispatch-subscribers,
}

module _ {F E D : Type 0} ⦃n : Number F⦄ ⦃k : KeyEq F⦄ (codec : Codec F E) (topics : Topics)
    (t : Datetime D) (loads : String → Result (Value F)) where
  -- What the rest of the backend does to the connection's subscriber.
  abbrev pub own_other :
      OtherStep → Subscriber (MessageKey F) (Message F) → Subscriber (MessageKey F) (Message F)
  own_other (handled msg) s = receive_some (published codec topics msg) s
  own_other _ s = s

  abbrev pub own_others :
      List OtherStep → Subscriber (MessageKey F) (Message F) → Subscriber (MessageKey F) (Message F)
  own_others [] s = s
  own_others (step ∷ steps) s = own_others steps (own_other step s)

  -- A step as the connection's subscriber alone would take it, with what it has sent.
  abbrev pub own_step :
      SessionStep
      → List (Message F) × Subscriber (MessageKey F) (Message F)
      → List (Message F) × Subscriber (MessageKey F) (Message F)
  own_step (other step) (sent, s) = (sent, own_other step s)
  own_step flushed (sent, s) = (sent ++ (drain s).0, (drain s).1)
  own_step (received text) (sent, s) = (sent, after_frame s (handle_frame t loads s text))

  abbrev own_ends : SessionStep → Subscriber (MessageKey F) (Message F) → Bool
  own_ends (received text) s = raises (handle_frame t loads s text)
  own_ends _ s = false

  -- The steps up to one that ends the connection.
  abbrev pub own :
      List SessionStep
      → List (Message F) × Subscriber (MessageKey F) (Message F)
      → List (Message F) × Subscriber (MessageKey F) (Message F)
  own [] c = c
  own (step ∷ steps) c =
      let rest = own steps (own_step step c) in if own_ends step c.1 then c else rest

  -- The consumer returns from the message, and nobody else gives the handle up.
  abbrev pub OtherCalm : ℕ → OtherStep → World F E → Type 0
  OtherCalm h (handled msg) w = (dispatch codec topics w msg).0 ≡ ok tt
  OtherCalm h joined w = Unit
  OtherCalm h (left i) w = (i == h) ≡ false

  abbrev pub OthersCalm : ℕ → List OtherStep → World F E → Type 0
  OthersCalm h [] w = Unit
  OthersCalm h (step ∷ steps) w =
      OtherCalm h step w × OthersCalm h steps (other_step codec t topics loads step w)

  abbrev pub StepCalm : ℕ → SessionStep → World F E → Type 0
  StepCalm h (other step) w = OtherCalm h step w
  StepCalm h _ w = Unit

  abbrev pub Calm : ℕ → List SessionStep → List (Message F) × World F E → Type 0
  Calm h [] c = Unit
  Calm h (step ∷ steps) c =
      StepCalm h step c.1 × Calm h steps (session_step codec t topics loads h step c)

  other-own :
      (h : ℕ) (step : OtherStep) (w : World F E) (s : Subscriber (MessageKey F) (Message F))
      → OtherCalm h step w
      → client_of h w.broadcaster.subscribers ≡ some s
      → client_of h (other_step codec t topics loads step w).broadcaster.subscribers
        ≡ some (own_other step s)
  unfolding other_step subscribe unsubscribe
  other-own h (handled msg) w s calm e =
      rw (dispatch-subscribers codec topics w msg calm)
        (client_of-receive h (published codec topics msg) w.broadcaster.subscribers s e)
  other-own h joined w s calm e = client_of-append h w.broadcaster.subscribers _ s e
  other-own h (left i) w s calm e = client_of-filter h i w.broadcaster.subscribers calm ∙ e

  others-own :
      (h : ℕ) (steps : List OtherStep) (w : World F E) (s : Subscriber (MessageKey F) (Message F))
      → OthersCalm h steps w
      → client_of h w.broadcaster.subscribers ≡ some s
      → client_of h (other_steps codec t topics loads steps w).broadcaster.subscribers
        ≡ some (own_others steps s)
  unfolding other_steps
  others-own h [] w s calm e = e
  others-own h (step ∷ steps) w s calm e =
      others-own h steps (other_step codec t topics loads step w) (own_other step s) calm.1
        (other-own h step w s calm.0 e)

  step-own :
      (h : ℕ) (step : SessionStep) (sent : List (Message F)) (w : World F E)
      (s : Subscriber (MessageKey F) (Message F))
      → StepCalm h step w
      → client_of h w.broadcaster.subscribers ≡ some s
      → ((session_step codec t topics loads h step (sent, w)).0 ≡ (own_step step (sent, s)).0)
        × (client_of h
              (session_step codec t topics loads h step (sent, w)).1.broadcaster.subscribers
            ≡ some (own_step step (sent, s)).1)
        × (ends codec t topics loads h step w ≡ own_ends step s)
  unfolding session_step drained ends
  step-own h (other step) sent w s calm e = (refl, other-own h step w s calm e, refl)
  step-own h flushed sent w s calm e =
      (rw e refl, client_of-alter_client h _ w.broadcaster.subscribers s e, refl)
  step-own h (received text) sent w s calm e =
      (refl, client_of-alter_client h _ w.broadcaster.subscribers s e, rw e refl)

  session-own :
      (h : ℕ) (steps : List SessionStep) (sent : List (Message F)) (w : World F E)
      (s : Subscriber (MessageKey F) (Message F))
      → Calm h steps (sent, w)
      → client_of h w.broadcaster.subscribers ≡ some s
      → (session codec t topics loads h steps (sent, w)).0 ≡ (own steps (sent, s)).0
  unfolding session
  session-own h [] sent w s calm e = refl
  session-own h (step ∷ steps) sent w s calm e =
      let (same, found, ended) = step-own h step sent w s calm.0 e in
      let (sent', w') = session_step codec t topics loads h step (sent, w) in
      let s' : Subscriber (MessageKey F) (Message F) = (own_step step (sent, s)).1 in
      let rest =
        session-own h steps sent' w' s' calm.1 found ∙ ap (λ out. (own steps (out, s')).0) same in
      elim (Bool-cases (own_ends step s)) [
        | inl stop ↦ rw (ended, stop) refl
        | inr on ↦ rw (ended, on) rest
      ]

  -- If the handle is not in use, the consumer returns from every message, and nobody else gives the
  -- handle up: an allowed connection is first sent the newest `limit` events of the buffer as it is
  -- when it is read, and then exactly what its subscriber alone would send, had it been offered
  -- every message that the consumer publishes from the subscription on, those before the buffer is
  -- read included, so that none falls between the two. An exception that a frame raises ends the
  -- connection. A connection from a disallowed origin is sent nothing. In the end the handle has no
  -- subscriber.
  pub stream_lem :
      (allowed : List String) (limit : ℤ) (origin : Option String) (between : List OtherStep)
      (steps : List SessionStep) (w : World F E)
      (unused : client_of w.broadcaster.next_handle w.broadcaster.subscribers ≡ none)
      (quiet : OthersCalm w.broadcaster.next_handle between
        (record w { broadcaster = (subscribe w.broadcaster).1 }))
      (calm : let w' =
          other_steps codec t topics loads between
            (record w { broadcaster = (subscribe w.broadcaster).1 }) in
        Calm w.broadcaster.next_handle steps
          (map (clean_message codec) (recent w'.buffer limit), w'))
      → let subscribed : World F E = record w { broadcaster = (subscribe w.broadcaster).1 } in
        let w' = other_steps codec t topics loads between subscribed in
        let snapshot = map (clean_message codec) (recent w'.buffer limit) in
        let s = new_subscriber w.broadcaster.max_pending w.broadcaster.coalesced_maxsize in
        let (sent, after) = stream codec t topics loads allowed limit origin between steps w in
        (sent ≡ (
          if origin_allowed allowed origin
          then some (own steps (snapshot, own_others between s)).0
          else none))
        × (client_of w.broadcaster.next_handle after.broadcaster.subscribers ≡ none)
  unfolding stream open_stream close_stream unsubscribe subscribe
  stream_lem allowed limit origin between steps w unused quiet calm =
      let h : ℕ = w.broadcaster.next_handle in
      let s = new_subscriber w.broadcaster.max_pending w.broadcaster.coalesced_maxsize in
      let subscribed : World F E = record w { broadcaster = (subscribe w.broadcaster).1 } in
      let w' : World F E = other_steps codec t topics loads between subscribed in
      let snapshot = map (clean_message codec) (recent w'.buffer limit) in
      let found =
        others-own h between subscribed s quiet
          (client_of-last h w.broadcaster.subscribers s unused) in
      elim (Bool-cases (origin_allowed allowed origin)) [
        | inr e ↦ rw (e, stream) (refl, unused)
        | inl e ↦
            rw (e, stream)
              (
                ap (λ out. some out)
                    (session-own h steps snapshot w' (own_others between s) calm found),
                client_of-unsubscribed h
                    (session codec t topics loads h steps (snapshot, w')).1.broadcaster.subscribers,
              )
      ]
