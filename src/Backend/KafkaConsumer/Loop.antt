-- ===== src/Backend/KafkaConsumer/Loop.antt =====
-- backend/app/core/kafka_consumer.py: which messages the consume loop survives, and what it does to
-- the ring buffer.
use radiation_tracking.Prelude.{
  String, ◌≡◌, refl, sym, ap, ap₂, ◌∙◌, subst, Bool, Option, none, some, List, [], ◌∷◌, ◌++◌, arith,
  str_eq, ◌⊎◌, inl, inr, All, Bool-cases, if◌then◌else◌,
}
use radiation_tracking.Python.{
  Number, Result, ok, raise, Exception, type_error, json_decode_error, Value,
}
use radiation_tracking.Backend.RingBuffer
use radiation_tracking.Backend.RingBuffer.{RingBuffer}
use radiation_tracking.Backend.RingBuffer.Append.{appends}
use radiation_tracking.Backend.Broadcaster.Subscribers.{KeyEq, hides}
use radiation_tracking.Backend.Broadcaster.{
  Clients, Message, MessageKey, message_key_eq, coalesce_key,
}
use radiation_tracking.Backend.Broadcaster.FanOut.{publish_lem, receive_all, Sees}
use radiation_tracking.Backend.Metrics.{new_metrics}
use radiation_tracking.Backend.Broadcaster.Subscribers.Accounts.{offer-view_filter}
use radiation_tracking.Backend.KafkaConsumer.{
  Msg, Topics, Codec, World, publish_to, skip_malformed, consumed, handle_clean, forward,
  handle_alert, handle_aggregated, dispatch, consume_loop,
}

module _ {F : Type 0} ⦃n : Number F⦄ where
  -- The envelope's coalescing key can be computed.
  abbrev pub Keyed : String → Value F → Type 0
  Keyed kind v =
      (key : Option (MessageKey F)) × (coalesce_key (record { kind = kind; payload = v }) ≡ ok key)

  pub alert-Keyed : (v : Value F) → Keyed "alert" v
  unfolding coalesce_key
  alert-Keyed v = (none, refl)

module _ {F : Type 0} where
  abbrev pub views_of : Clients F → List (Option (Message F → Result Bool))
  views_of [] = []
  views_of ((h, s) ∷ clients) = s.view_filter ∷ views_of clients

  -- No view raises on the message.
  abbrev pub SeenBy : Message F → List (Option (Message F → Result Bool)) → Type 0
  SeenBy message [] = Unit
  SeenBy message (view ∷ views) = ((b : Bool) × (hides view message ≡ ok b)) × SeenBy message views

module _ {F E : Type 0} where
  abbrev pub views : World F E → List (Option (Message F → Result Bool))
  views w = views_of w.broadcaster.subscribers

module _ {F : Type 0} ⦃n : Number F⦄ ⦃k : KeyEq F⦄ where
  views_of-receive_all :
      (message : Message F) (cs : Clients F) → views_of (receive_all message cs) ≡ views_of cs
  views_of-receive_all message [] = refl
  views_of-receive_all message ((h, s) ∷ cs) =
      ap₂ (λ v vs. v ∷ vs) (offer-view_filter coalesce_key new_metrics s message)
        (views_of-receive_all message cs)

  seen :
      (message : Message F) (cs : Clients F) → SeenBy message (views_of cs) → All (Sees message) cs
  seen message [] h = tt
  seen message ((i, s) ∷ cs) h = (h.0, seen message cs h.1)

module _ {F E : Type 0} ⦃n : Number F⦄ ⦃k : KeyEq F⦄ where
  publish_to-ok :
      (w : World F E) (kind : String) (v : Value F)
      → Keyed kind v
      → SeenBy (record { kind = kind; payload = v }) (views w)
      → ((publish_to w kind v).0 ≡ ok tt)
        × ((publish_to w kind v).1.buffer ≡ w.buffer)
        × (views (publish_to w kind v).1 ≡ views w)
  unfolding publish_to
  publish_to-ok w kind v h sees =
      let published =
        publish_lem w.metrics w.broadcaster (record { kind = kind; payload = v }) h.0 h.1
          (seen _ w.broadcaster.subscribers sees) in
      (
        published.0,
        refl,
        ap (λ b. views_of b.subscribers) published.1
            ∙ views_of-receive_all (record { kind = kind; payload = v }) w.broadcaster.subscribers,
      )

module _ {F E : Type 0} ⦃n : Number F⦄ ⦃k : KeyEq F⦄ (codec : Codec F E) (topics : Topics) where
  -- A message that the handlers can cope with: its decoding raises nothing that they do not catch,
  -- and, on the aggregated topic, its payload has a key.
  pub record IsTame (msg : Msg) : Type 0 where
    pub caught :
        (x : Exception)
        → codec.loads msg.value ≡ raise x
        → (x ≡ json_decode_error) ⊎ (x ≡ type_error)
    pub keyed : (v : Value F) → codec.loads msg.value ≡ ok v → Keyed "aggregated" v

  -- The events that a message brings to the buffer.
  abbrev pub clean_event : Msg → List E
  clean_event msg =
      if str_eq msg.topic topics.clean
      then elim (codec.model_validate_json msg.value) [ none ↦ [] | some event ↦ event ∷ [] ]
      else []

  abbrev pub clean_events : List Msg → List E
  clean_events [] = []
  clean_events (msg ∷ rest) = clean_event msg ++ clean_events rest

  abbrev pub as_message : String → Result (Value F) → Option (Message F)
  as_message kind (ok v) = some (record { kind = kind; payload = v })
  as_message kind (raise x) = none

  abbrev pub as_clean : Option E → Option (Message F)
  as_clean none = none
  as_clean (some event) = some (record { kind = "clean"; payload = codec.model_dump event })

  -- What the consumer publishes for a message.
  abbrev pub published : Msg → Option (Message F)
  published msg =
      if str_eq msg.topic topics.clean
      then as_clean (codec.model_validate_json msg.value)
      else if str_eq msg.topic topics.alerts
      then as_message "alert" (codec.loads msg.value)
      else if str_eq msg.topic topics.aggregated
      then as_message "aggregated" (codec.loads msg.value)
      else none

  abbrev pub SeenIf : Option (Message F) → List (Option (Message F → Result Bool)) → Type 0
  SeenIf none vs = Unit
  SeenIf (some message) vs = SeenBy message vs

  -- No view raises on what is published for the message.
  abbrev pub IsSeen : List (Option (Message F → Result Bool)) → Msg → Type 0
  IsSeen vs msg = SeenIf (published msg) vs

  -- The round returns, with the events added to the buffer and the views as they were.
  abbrev Went : World F E → List E → Result (Unit {0}) × World F E → Type 0
  Went w events (r, w') = (r ≡ ok tt) × (w'.buffer ≡ appends w.buffer events) × (views w' ≡ views w)

  forward-ok :
      (w : World F E) (stream kind : String) (r : Result (Value F))
      → ((v : Value F) → r ≡ ok v → Keyed kind v)
      → ((x : Exception) → r ≡ raise x → (x ≡ json_decode_error) ⊎ (x ≡ type_error))
      → SeenIf (as_message kind r) (views w)
      → Went w [] (forward codec w stream kind r)
  unfolding forward skip_malformed
  forward-ok w stream kind (ok v) keyed caught sees =
      unfold consumed in publish_to-ok (consumed w stream) kind v (keyed v refl) sees
  forward-ok w stream kind (raise json_decode_error) keyed caught sees = (refl, refl, refl)
  forward-ok w stream kind (raise type_error) keyed caught sees = (refl, refl, refl)
  forward-ok w stream kind (raise x) keyed caught sees = absurd (ground (arith, caught x refl))

  module _ (dumps : (event : E) → Keyed "clean" (codec.model_dump event)) where
    clean-ok :
        (w : World F E) (msg : Msg) (o : Option E)
        → codec.model_validate_json msg.value ≡ o
        → SeenIf (as_clean o) (views w)
        → Went w (elim o [ none ↦ [] | some event ↦ event ∷ [] ]) (handle_clean codec w msg)
    unfolding handle_clean
    clean-ok w msg none e sees = rw (e, handle_clean) (unfold skip_malformed in (refl, refl, refl))
    clean-ok w msg (some event) e sees =
        rw (e, handle_clean)
          (unfold consumed in publish_to-ok _ "clean" (codec.model_dump event) (dumps event) sees)

    dispatch-ok :
        (w : World F E) (msg : Msg)
        → IsTame msg
        → IsSeen (views w) msg
        → Went w (clean_event msg) (dispatch codec topics w msg)
    unfolding dispatch handle_alert handle_aggregated
    dispatch-ok w msg tame sees = elim (Bool-cases (str_eq msg.topic topics.clean)) [
      | inl c ↦ rw c (clean-ok w msg (codec.model_validate_json msg.value) refl (rw c at sees))
      | inr c ↦
          let sees = rw c at sees in
          rw c (elim (Bool-cases (str_eq msg.topic topics.alerts)) [
            | inl a ↦ rw a (
                forward-ok w "alerts" "alert" (codec.loads msg.value) (λ v e. alert-Keyed v)
                  tame.caught (rw a at sees))
            | inr a ↦
                let sees = rw a at sees in
                rw a (elim (Bool-cases (str_eq msg.topic topics.aggregated)) [
                  | inl g ↦ rw g (
                      forward-ok w "aggregated" "aggregated" (codec.loads msg.value) tame.keyed
                        tame.caught (rw g at sees))
                  | inr g ↦ rw g (refl, refl, refl)
                ])
          ])
    ]

    appends-append :
        (b : RingBuffer E) (xs ys : List E) → appends b (xs ++ ys) ≡ appends (appends b xs) ys
    appends-append b [] ys = refl
    appends-append b (x ∷ xs) ys = appends-append (RingBuffer.append b x) xs ys

    -- If model_dump gives every event a key, json.loads raises only what the handlers catch,
    -- every decoded payload has a key, and no subscriber's view raises on what is published, then
    -- the loop handles all messages, malformed ones included, without an exception, and the
    -- buffer has been given exactly the valid events of the clean topic, in order.
    pub consume_loop-ok :
        (w : World F E) (msgs : List Msg)
        → All IsTame msgs
        → All (IsSeen (views w)) msgs
        → ((consume_loop codec topics w msgs).0 ≡ ok tt)
          × ((consume_loop codec topics w msgs).1.buffer ≡ appends w.buffer (clean_events msgs))
    unfolding consume_loop
    consume_loop-ok w [] tame sees = (refl, refl)
    consume_loop-ok w (msg ∷ rest) tame sees =
        let round = dispatch-ok w msg tame.0 sees.0 in
        let kept = subst (λ vs. All (IsSeen vs) rest) (sym round.2) sees.1 in
        let later = consume_loop-ok (dispatch codec topics w msg).1 rest tame.1 kept in
        rw (round.0, consume_loop)
          (
            later.0,
            later.1
                ∙ ap (λ b. appends b (clean_events rest)) round.1
                ∙ sym (appends-append w.buffer (clean_event msg) (clean_events rest)),
          )
