-- ===== src/Backend/Broadcaster/FanOut.antt =====
-- backend/app/core/broadcaster.py, class Broadcaster: a published message reaches every subscriber,
-- whatever the state of the others.
use radiation_tracking.Prelude.{
  ℕ, ◌+◌, ◌≡◌, refl, Bool, true, false, inl, inr, All, Option, none, some, [], ◌∷◌, map, arith,
}
use radiation_tracking.Python.{Number, Result, ok, Result-cases}
use radiation_tracking.Backend.Metrics.{BackendMetrics, new_metrics}
use radiation_tracking.Backend.Broadcaster.Subscribers.{
  KeyEq, Subscriber, hides, offer, after_view, accept, enqueue, coalesce, filter_out,
}
use radiation_tracking.Backend.Broadcaster.Subscribers.Accounts.{offer_accounts}
use radiation_tracking.Backend.Broadcaster.{
  Message, MessageKey, message_key_eq, coalesce_key, Clients, Broadcaster, publish_each, publish,
}

module _ {K M : Type 0} ⦃e : KeyEq K⦄ (key_of : M → Result (Option K)) where
  -- A subscriber's new state does not depend on the metrics.
  offer_metrics :
      (m m' : BackendMetrics) (s : Subscriber K M) (x : M)
      → (offer key_of m s x).2 ≡ (offer key_of m' s x).2
  unfolding offer after_view accept enqueue coalesce filter_out
  offer_metrics m m' s x = ground arith

  offer-ok :
      (m : BackendMetrics) (s : Subscriber K M) (x : M) (k : Option K) (b : Bool)
      → key_of x ≡ ok k
      → hides s.view_filter x ≡ ok b
      → (offer key_of m s x).0 ≡ ok tt
  unfolding offer after_view accept
  offer-ok m s x k true h e = rw e refl
  offer-ok m s x none false h e = rw (e, h) refl
  offer-ok m s x (some key) false h e = rw (e, h) refl

module _ {F : Type 0} ⦃n : Number F⦄ ⦃k : KeyEq F⦄ where
  -- What a message does to one subscriber.
  abbrev pub receive :
      Message F → Subscriber (MessageKey F) (Message F) → Subscriber (MessageKey F) (Message F)
  receive message s = (offer coalesce_key new_metrics s message).2

  abbrev pub receive_all : Message F → Clients F → Clients F
  receive_all message =
      map (λ (c : ℕ × Subscriber (MessageKey F) (Message F)). (c.0, receive message c.1))

  abbrev pub total_dropped : Clients F → ℕ
  total_dropped [] = 0
  total_dropped ((h, s) ∷ rest) = s.dropped_count + total_dropped rest

  -- The view of a client judges a message and does not raise.
  abbrev pub Sees : Message F → ℕ × Subscriber (MessageKey F) (Message F) → Type 0
  Sees message c = (b : Bool) × (hides c.1.view_filter message ≡ ok b)

  publish_each-ok :
      (m : BackendMetrics) (cs : Clients F) (message : Message F) (key : Option (MessageKey F))
      → coalesce_key message ≡ ok key
      → All (Sees message) cs
      → (publish_each m cs message).0 ≡ ok tt
  unfolding publish_each
  publish_each-ok m [] message key h sees = refl
  publish_each-ok m ((i, s) ∷ rest) message key h sees =
      let o = offer coalesce_key m s message in
      let good : o.0 ≡ ok tt = offer-ok coalesce_key m s message key sees.0.0 h sees.0.1 in
      rw (good, publish_each) (publish_each-ok o.1 rest message key h sees.1)

  publish_each_lem :
      (m : BackendMetrics) (cs : Clients F) (message : Message F)
      → (publish_each m cs message).0 ≡ ok tt
      → ((publish_each m cs message).2 ≡ receive_all message cs)
        × ((publish_each m cs message).1.ws_dropped + total_dropped cs
            ≡ m.ws_dropped + total_dropped (publish_each m cs message).2)
  unfolding publish_each
  publish_each_lem m [] message h = (refl, refl)
  publish_each_lem m ((i, s) ∷ rest) message h =
      let o = offer coalesce_key m s message in
      elim (Result-cases o.0) [
        | inr (x, raised) ↦ absurd (ground (arith, rw (raised, publish_each) at h))
        | inl (u, good) ↦
            let later = publish_each_lem o.1 rest message (rw (good, publish_each) at h) in
            let same = offer_metrics coalesce_key m new_metrics s message in
            rw (good, publish_each)
              (
                (λ j. (i, same j) ∷ later.0 j),
                omega (arith, later.1, (offer_accounts coalesce_key m s message good).1.dropped),
              )
      ]

  -- A publication that returns has offered the message to every subscriber, each of which changes as
  -- if it were the only one.
  pub publish_returns :
      (m : BackendMetrics) (b : Broadcaster F) (message : Message F)
      → (publish m b message).0 ≡ ok tt
      → (publish m b message).2 ≡ record b { subscribers = receive_all message b.subscribers }
  unfolding publish
  publish_returns m b message h =
      let each = publish_each_lem m b.subscribers message h in
      λ i. record b { subscribers = each.0 i }

  pub publish-ok :
      (m : BackendMetrics) (b : Broadcaster F) (message : Message F) (key : Option (MessageKey F))
      → coalesce_key message ≡ ok key
      → All (Sees message) b.subscribers
      → (publish m b message).0 ≡ ok tt
  unfolding publish
  publish-ok m b message key h sees = publish_each-ok m b.subscribers message key h sees

  -- Publishing a message whose key can be computed, and on which no subscriber's view raises,
  -- raises nothing, changes each subscriber as an offer to it alone would and nothing else of the
  -- broadcaster, and adds to the ws_dropped metric exactly what the subscribers drop.
  pub publish_lem :
      (m : BackendMetrics) (b : Broadcaster F) (message : Message F) (key : Option (MessageKey F))
      → coalesce_key message ≡ ok key
      → All (Sees message) b.subscribers
      → ((publish m b message).0 ≡ ok tt)
        × ((publish m b message).2 ≡ record b { subscribers = receive_all message b.subscribers })
        × ((publish m b message).1.ws_dropped + total_dropped b.subscribers
            ≡ m.ws_dropped + total_dropped (publish m b message).2.subscribers)
  unfolding publish
  publish_lem m b message key h sees =
      let good = publish_each-ok m b.subscribers message key h sees in
      let each = publish_each_lem m b.subscribers message good in
      (good, (λ i. record b { subscribers = each.0 i }), each.1)
