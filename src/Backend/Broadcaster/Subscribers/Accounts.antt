-- ===== src/Backend/Broadcaster/Subscribers/Accounts.antt =====
-- backend/app/core/broadcaster.py, class Subscriber: every message is accounted for, and the
-- client's counters agree with the global metrics.
use radiation_tracking.Prelude.{
  ℕ, ◌+◌, ◌-◌, ◌≡◌, refl, ap, ◌∙◌, Bool, true, false, Option, none, some, List, [], ◌∷◌, ◌++◌, map,
  arith, length, inl, inr, length-append, length-drop, length-map,
}
use radiation_tracking.Python.{Result, ok, raise}
use radiation_tracking.Backend.Metrics.{BackendMetrics, record_ws_coalesced, record_ws_dropped}
use radiation_tracking.Backend.Broadcaster.Subscribers.{
  KeyEq, Subscriber, hides, record_drops, enqueue, coalesce, without, is_full, supersede, popitem,
  is_empty, accept, offer, after_view, view-cases, filter_out, drain,
}
use radiation_tracking.Backend.Broadcaster.Subscribers.Lanes.{shed-slice_last, length-without}

module _ {K M : Type 0} where
  -- Messages that wait for the next flush.
  abbrev pub pending : Subscriber K M → ℕ
  pending s = length s.fifo + length s.coalesced

  -- All messages that a subscriber still holds or has counted as not delivered.
  abbrev pub accounted : Subscriber K M → ℕ
  accounted s = pending s + s.coalesced_count + s.dropped_count + s.filtered_count

  -- The counters that the subscriber and the metrics share have grown alike.
  pub record Agree (m : BackendMetrics) (s : Subscriber K M) (m' : BackendMetrics)
      (s' : Subscriber K M) : Type 0 where
    pub coalesced : m'.ws_coalesced + s.coalesced_count ≡ m.ws_coalesced + s'.coalesced_count
    pub dropped : m'.ws_dropped + s.dropped_count ≡ m.ws_dropped + s'.dropped_count

module _ {K M : Type 0} ⦃e : KeyEq K⦄ where
  enqueue_accounts :
      (m : BackendMetrics) (s : Subscriber K M) (x : M)
      → (accounted (enqueue m s x).1 ≡ accounted s + 1)
        × Agree m s (enqueue m s x).0 (enqueue m s x).1
  unfolding enqueue record_drops
  enqueue_accounts m s x =
      let all = s.fifo ++ x ∷ [] in
      rw (shed-slice_last s.max_pending all) (
        omega (arith, length-drop (length all - s.max_pending) all, length-append s.fifo (x ∷ [])),
        record { coalesced = omega arith; dropped = omega arith },
      )

  length-popitem : (d : List (K × M)) → is_empty d ≡ false → length (popitem d) + 1 ≡ length d
  length-popitem [] h = cc
  length-popitem (x ∷ d) h = omega arith

  coalesce_accounts :
      (m : BackendMetrics) (s : Subscriber K M) (key : K) (x : M)
      → (accounted (coalesce m s key x).1 ≡ accounted s + 1)
        × Agree m s (coalesce m s key x).0 (coalesce m s key x).1
  unfolding coalesce supersede is_full record_ws_coalesced record_ws_dropped
  coalesce_accounts m s key x = ground (
    arith,
    length-without s.coalesced key,
    length-append (without s.coalesced key) ((key, x) ∷ []),
    length-append s.coalesced ((key, x) ∷ []),
    length-append (popitem s.coalesced) ((key, x) ∷ []),
    length-popitem s.coalesced,
  )

  accept_accounts :
      (key : Result (Option K)) (m : BackendMetrics) (s : Subscriber K M) (x : M)
      → (accept key m s x).0 ≡ ok tt
      → (accounted (accept key m s x).2 ≡ accounted s + 1)
        × Agree m s (accept key m s x).1 (accept key m s x).2
  unfolding accept
  accept_accounts (raise f) m s x h = cc
  accept_accounts (ok none) m s x h = enqueue_accounts m s x
  accept_accounts (ok (some key)) m s x h = coalesce_accounts m s key x

module _ {K M : Type 0} ⦃e : KeyEq K⦄ (key_of : M → Result (Option K)) where
  -- An offered message is pending, or counted once as superseded, dropped or filtered; and the
  -- superseded and dropped ones are counted in the metrics too.
  pub offer_accounts :
      (m : BackendMetrics) (s : Subscriber K M) (x : M)
      → (offer key_of m s x).0 ≡ ok tt
      → (accounted (offer key_of m s x).2 ≡ accounted s + 1)
        × Agree m s (offer key_of m s x).1 (offer key_of m s x).2
  unfolding offer after_view filter_out
  offer_accounts m s x h = elim (view-cases (hides s.view_filter x)) [
    | inl hidden ↦
        rw hidden (omega arith, record { coalesced = omega arith; dropped = omega arith })
    | inr (inl shown) ↦ rw shown (accept_accounts (key_of x) m s x (rw shown at h))
    | inr (inr (y, raised)) ↦ absurd (ground (arith, raised, h))
  ]

module _ {K M : Type 0} where
  pub length-drain : (s : Subscriber K M) → length (drain s).0 ≡ pending s
  unfolding drain
  length-drain s = omega (
    arith,
    length-append s.fifo (map (λ (x : K × M). x.1) s.coalesced),
    length-map (λ (x : K × M). x.1) s.coalesced,
  )

-- What happens to a subscriber: a message is published, or its client is flushed.
pub data Action (M : Type 0) : Type 0 where
  publish : M → Action M
  flush : Action M

abbrev pub published : {M : Type 0} → List (Action M) → ℕ
published [] = 0
published (publish x ∷ acts) = published acts + 1
published (flush ∷ acts) = published acts

module _ {K M : Type 0} ⦃e : KeyEq K⦄ (key_of : M → Result (Option K)) where
  -- What the client receives, and what is left.
  unfoldable pub run :
      BackendMetrics → Subscriber K M → List (Action M) → List M × BackendMetrics × Subscriber K M
  run m s [] = ([], m, s)
  run m s (publish x ∷ acts) = let (r, m', s') = offer key_of m s x in run m' s' acts
  run m s (flush ∷ acts) =
      let (batch, s') = drain s in
      let (later, m'', s'') = run m s' acts in (batch ++ later, m'', s'')

  offer-ok :
      (m : BackendMetrics) (s : Subscriber K M) (x : M) (k : Option K)
      → key_of x ≡ ok k
      → (b : Bool) → hides s.view_filter x ≡ ok b
      → (offer key_of m s x).0 ≡ ok tt
  unfolding offer after_view accept
  offer-ok m s x k h true e = rw e refl
  offer-ok m s x k h false e = rw (e, h) (key_case k)
    where
      key_case : (k : Option K) → (accept (ok k) m s x).0 ≡ ok tt
      key_case none = refl
      key_case (some key) = refl

  -- The view stays as it is.
  pub offer-view_filter :
      (m : BackendMetrics) (s : Subscriber K M) (x : M)
      → (offer key_of m s x).2.view_filter ≡ s.view_filter
  unfolding offer after_view accept enqueue coalesce filter_out
  offer-view_filter m s x = ground arith

  run_accounts_from :
      (total : (x : M) → (k : Option K) × (key_of x ≡ ok k)) (view : Option (M → Result Bool))
      (sees : (x : M) → (b : Bool) × (hides view x ≡ ok b)) (acts : List (Action M))
      (m : BackendMetrics) (s : Subscriber K M)
      → s.view_filter ≡ view
      → length (run m s acts).0 + accounted (run m s acts).2 ≡ accounted s + published acts
  unfolding run
  run_accounts_from total view sees [] m s ev = omega arith
  run_accounts_from total view sees (publish x ∷ acts) m s ev =
      let (r, m', s') = offer key_of m s x in
      let seen : hides s.view_filter x ≡ ok (sees x).0 = ap (λ v. hides v x) ev ∙ (sees x).1 in
      omega (
        arith,
        run_accounts_from total view sees acts m' s' (offer-view_filter m s x ∙ ev),
        (offer_accounts key_of m s x (offer-ok m s x (total x).0 (total x).1 (sees x).0 seen)).0,
      )
  run_accounts_from total view sees (flush ∷ acts) m s ev = omega (
    arith,
    run_accounts_from total view sees acts m (drain s).1 (kept_view s ∙ ev),
    length-append (drain s).0 (run m (drain s).1 acts).0,
    length-drain s,
    emptied s,
  )
    where
      emptied : (s : Subscriber K M) → accounted (drain s).1 + pending s ≡ accounted s
      emptied s = unfold drain in omega arith

      kept_view : (s : Subscriber K M) → (drain s).1.view_filter ≡ s.view_filter
      kept_view s = unfold drain in refl

  -- If every message has a key or none, and neither computing it nor judging the message by the
  -- view raises, then after any sequence of publishes and flushes the delivered, pending,
  -- superseded, dropped and filtered messages add up to those accounted for at the start and
  -- those published.
  pub run_accounts :
      (total : (x : M) → (k : Option K) × (key_of x ≡ ok k)) (acts : List (Action M))
      (m : BackendMetrics) (s : Subscriber K M)
      (sees : (x : M) → (b : Bool) × (hides s.view_filter x ≡ ok b))
      → length (run m s acts).0 + accounted (run m s acts).2 ≡ accounted s + published acts
  run_accounts total acts m s sees = run_accounts_from total s.view_filter sees acts m s refl
