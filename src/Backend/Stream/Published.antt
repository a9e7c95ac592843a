-- ===== src/Backend/Stream/Published.antt =====
-- Subscribers by their handles, and what the consumer publishes to them.
use radiation_tracking.Prelude.{
  ℕ, ◌==◌, ◌≡◌, refl, ap, String, false, not, Option, none, some, List, [], ◌∷◌, ◌++◌, map, filter,
  str_eq, arith, Bool-cases, inl, inr,
}
use radiation_tracking.Python.{Number, Result, ok, raise, Value, json_decode_error, type_error}
use radiation_tracking.Backend.Broadcaster.Subscribers.{KeyEq, Subscriber}
use radiation_tracking.Backend.Broadcaster.{Clients, Message, MessageKey}
use radiation_tracking.Backend.Broadcaster.FanOut.{publish_returns, receive, receive_all}
use radiation_tracking.Backend.KafkaConsumer.{
  Msg, Topics, Codec, World, dispatch, publish_to, skip_malformed, consumed, handle_clean, forward,
  handle_alert, handle_aggregated,
}
use radiation_tracking.Backend.KafkaConsumer.Loop.{published, as_message, as_clean}
use radiation_tracking.Backend.Stream.Session.{client_of, alter_client}

module _ {S : Type 0} (h : ℕ) where
  pub client_of-map :
      (f : S → S) (cs : List (ℕ × S)) (s : S)
      → client_of h cs ≡ some s
      → client_of h (map (λ (c : ℕ × S). (c.0, f c.1)) cs) ≡ some (f s)
  client_of-map f [] s e = absurd (ground (arith, e))
  client_of-map f ((i, s') ∷ cs) s e = ground (arith, client_of-map f cs s)

  pub client_of-alter_client :
      (f : S → S) (cs : List (ℕ × S)) (s : S)
      → client_of h cs ≡ some s
      → client_of h (alter_client f h cs) ≡ some (f s)
  client_of-alter_client f [] s e = absurd (ground (arith, e))
  client_of-alter_client f ((i, s') ∷ cs) s e = ground (arith, client_of-alter_client f cs s)

  pub client_of-append :
      (cs ds : List (ℕ × S)) (s : S) → client_of h cs ≡ some s → client_of h (cs ++ ds) ≡ some s
  client_of-append [] ds s e = absurd (ground (arith, e))
  client_of-append ((i, s') ∷ cs) ds s e = ground (arith, client_of-append cs ds s)

  pub client_of-last :
      (cs : List (ℕ × S)) (s : S)
      → client_of h cs ≡ none
      → client_of h (cs ++ ((h, s) ∷ [])) ≡ some s
  client_of-last [] s e = ground arith
  client_of-last ((i, s') ∷ cs) s e = ground (arith, client_of-last cs s)

  pub client_of-filter :
      (i : ℕ) (cs : List (ℕ × S))
      → (i == h) ≡ false
      → client_of h (filter (λ (c : ℕ × S). not (c.0 == i)) cs) ≡ client_of h cs
  client_of-filter i [] e = refl
  client_of-filter i ((j, s) ∷ cs) e = ground (arith, client_of-filter i cs e)

  pub client_of-unsubscribed :
      (cs : List (ℕ × S)) → client_of h (filter (λ (c : ℕ × S). not (c.0 == h)) cs) ≡ none
  client_of-unsubscribed [] = refl
  client_of-unsubscribed ((j, s) ∷ cs) = ground (arith, client_of-unsubscribed cs)

module _ {F : Type 0} ⦃n : Number F⦄ ⦃k : KeyEq F⦄ where
  -- What a message, if there is one, does to a subscriber and to all of them.
  abbrev pub receive_some :
      Option (Message F)
      → Subscriber (MessageKey F) (Message F)
      → Subscriber (MessageKey F) (Message F)
  receive_some none s = s
  receive_some (some m) s = receive m s

  abbrev pub receive_everywhere : Option (Message F) → Clients F → Clients F
  receive_everywhere none cs = cs
  receive_everywhere (some m) cs = receive_all m cs

  pub client_of-receive :
      (h : ℕ) (o : Option (Message F)) (cs : Clients F) (s : Subscriber (MessageKey F) (Message F))
      → client_of h cs ≡ some s
      → client_of h (receive_everywhere o cs) ≡ some (receive_some o s)
  client_of-receive h none cs s e = e
  client_of-receive h (some m) cs s e = client_of-map h (receive m) cs s e

module _ {F E : Type 0} ⦃n : Number F⦄ ⦃k : KeyEq F⦄ (codec : Codec F E) (topics : Topics) where
  publish_to-subscribers :
      (w : World F E) (kind : String) (v : Value F)
      → (publish_to w kind v).0 ≡ ok tt
      → (publish_to w kind v).1.broadcaster.subscribers
        ≡ receive_all (record { kind = kind; payload = v }) w.broadcaster.subscribers
  unfolding publish_to
  publish_to-subscribers w kind v h =
      ap (λ b. b.subscribers)
        (publish_returns w.metrics w.broadcaster (record { kind = kind; payload = v }) h)

  forward-subscribers :
      (w : World F E) (name kind : String) (r : Result (Value F))
      → (forward codec w name kind r).0 ≡ ok tt
      → (forward codec w name kind r).1.broadcaster.subscribers
        ≡ receive_everywhere (as_message codec topics kind r) w.broadcaster.subscribers
  unfolding forward skip_malformed
  forward-subscribers w name kind (ok v) h =
      unfold consumed in publish_to-subscribers (consumed w name) kind v h
  forward-subscribers w name kind (raise json_decode_error) h = refl
  forward-subscribers w name kind (raise type_error) h = refl
  forward-subscribers w name kind (raise x) h = absurd (ground (arith, h))

  clean-subscribers :
      (w : World F E) (msg : Msg) (o : Option E)
      → codec.model_validate_json msg.value ≡ o
      → (handle_clean codec w msg).0 ≡ ok tt
      → (handle_clean codec w msg).1.broadcaster.subscribers
        ≡ receive_everywhere (as_clean codec topics o) w.broadcaster.subscribers
  unfolding handle_clean
  clean-subscribers w msg none e h = rw (e, handle_clean) (unfold skip_malformed in refl)
  clean-subscribers w msg (some event) e h =
      rw (e, handle_clean)
        (unfold consumed in
          publish_to-subscribers _ "clean" (codec.model_dump event) (rw (e, handle_clean) at h))

  -- A round that returns has offered every subscriber what it published.
  pub dispatch-subscribers :
      (w : World F E) (msg : Msg)
      → (dispatch codec topics w msg).0 ≡ ok tt
      → (dispatch codec topics w msg).1.broadcaster.subscribers
        ≡ receive_everywhere (published codec topics msg) w.broadcaster.subscribers
  unfolding dispatch handle_alert handle_aggregated
  dispatch-subscribers w msg h = elim (Bool-cases (str_eq msg.topic topics.clean)) [
    | inl c ↦ rw c (clean-subscribers w msg (codec.model_validate_json msg.value) refl (rw c at h))
    | inr c ↦
        let h = rw c at h in
        rw c (elim (Bool-cases (str_eq msg.topic topics.alerts)) [
          | inl a ↦
              rw a (forward-subscribers w "alerts" "alert" (codec.loads msg.value) (rw a at h))
          | inr a ↦
              let h = rw a at h in
              rw a (elim (Bool-cases (str_eq msg.topic topics.aggregated)) [
                | inl g ↦ rw g (
                    forward-subscribers w "aggregated" "aggregated" (codec.loads msg.value)
                      (rw g at h))
                | inr g ↦ rw g refl
              ])
        ])
  ]
