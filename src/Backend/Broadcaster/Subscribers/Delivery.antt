-- ===== src/Backend/Broadcaster/Subscribers/Delivery.antt =====
-- backend/app/core/broadcaster.py, class Subscriber: what a client receives. Queued messages come in
-- order and only the oldest over the cap are lost; of each key the client receives the newest
-- message.
use radiation_tracking.Prelude.{
  ℕ, ◌+◌, ◌-◌, ◌≤◌, ◌<◌, ◌≡◌, refl, ◌∙◌, Bool, true, false, ◌&&◌, Option, none, some, List, [], ◌∷◌,
  ◌++◌, ap, arith, length, drop, slice_last, filter, if◌then◌else◌, Bool-cases, inl, inr,
  length-append, append-nil, append_assoc, slice_last-append,
}
use radiation_tracking.Python.{Result, ok, raise}
use radiation_tracking.Backend.Metrics.{BackendMetrics}
use radiation_tracking.Backend.Broadcaster.Subscribers.{
  KeyEq, Subscriber, hides, enqueue, coalesce, without, is_full, supersede, popitem, accept, offer,
  after_view, view-cases, filter_out,
}
use radiation_tracking.Backend.Broadcaster.Subscribers.Lanes.{
  Distinct, lookup, shed-slice_last, length-without, contains-without_self, lookup-append,
  lookup-without,
}
use radiation_tracking.Backend.Broadcaster.Subscribers.Bounds.{IsValid, offer-IsValid}

length-popitem-le : {K M : Type 0} (d : List (K × M)) → length (popitem d) ≤ length d
length-popitem-le [] = omega arith
length-popitem-le (x ∷ d) = omega arith

abbrev pub is_shown : Result Bool → Bool
is_shown (ok false) = true
is_shown _ = false

-- Whether the view shows a message.
abbrev pub shows : {M : Type 0} → Option (M → Result Bool) → M → Bool
shows view x = is_shown (hides view x)

module _ {K M : Type 0} ⦃e : KeyEq K⦄ (key_of : M → Result (Option K)) where
  -- Messages published one after the other, with no flush between them.
  unfoldable pub offers : BackendMetrics → Subscriber K M → List M → BackendMetrics × Subscriber K M
  offers m s [] = (m, s)
  offers m s (x ∷ xs) = let (r, m', s') = offer key_of m s x in offers m' s' xs

  abbrev is_keyless : Result (Option K) → Bool
  is_keyless (ok none) = true
  is_keyless _ = false

  -- Messages for the FIFO lane: the view shows them, and they have no key.
  abbrev pub queued : Option (M → Result Bool) → M → Bool
  queued view x = shows view x && is_keyless (key_of x)

  accept-fifo :
      (key : Result (Option K)) (m : BackendMetrics) (s : Subscriber K M) (x : M)
      → length s.fifo ≤ s.max_pending
      → (accept key m s x).2.fifo
        ≡ (if is_keyless key then slice_last s.max_pending (s.fifo ++ x ∷ []) else s.fifo)
  unfolding accept enqueue coalesce
  accept-fifo (raise f) m s x h = refl
  accept-fifo (ok none) m s x h = rw (shed-slice_last s.max_pending (s.fifo ++ x ∷ []))
  accept-fifo (ok (some key)) m s x h = ground arith

  -- The caps and the view stay as they are.
  offer_settings :
      (m : BackendMetrics) (s : Subscriber K M) (x : M)
      → let t = (offer key_of m s x).2 in
        (t.max_pending ≡ s.max_pending)
        × (t.coalesced_max ≡ s.coalesced_max)
        × (t.view_filter ≡ s.view_filter)
  unfolding offer after_view accept enqueue coalesce filter_out
  offer_settings m s x = ground arith

  offer-fifo :
      (m : BackendMetrics) (s : Subscriber K M) (x : M)
      → length s.fifo ≤ s.max_pending
      → (offer key_of m s x).2.fifo
        ≡ (if queued s.view_filter x then slice_last s.max_pending (s.fifo ++ x ∷ []) else s.fifo)
  unfolding offer after_view filter_out
  offer-fifo m s x h = elim (view-cases (hides s.view_filter x)) [
    | inl hidden ↦ rw hidden
    | inr (inl shown) ↦ rw shown (accept-fifo (key_of x) m s x h)
    | inr (inr (y, raised)) ↦ rw raised refl
  ]

  offer-fifo_queued :
      (p : ℕ) (view : Option (M → Result Bool)) (m : BackendMetrics) (s : Subscriber K M)
      (past : List M) (x : M)
      → s.max_pending ≡ p
      → s.view_filter ≡ view
      → length s.fifo ≤ s.max_pending
      → s.fifo ≡ slice_last p past
      → queued view x ≡ true
      → (offer key_of m s x).2.fifo ≡ slice_last p (past ++ x ∷ [])
  offer-fifo_queued p view m s past x ep ev fits h q =
      offer-fifo m s x fits ∙ rw (ev, q, ep, h) (slice_last-append p past (x ∷ []))

  offer-fifo_other :
      (view : Option (M → Result Bool)) (m : BackendMetrics) (s : Subscriber K M) (x : M)
      → s.view_filter ≡ view
      → length s.fifo ≤ s.max_pending
      → queued view x ≡ false
      → (offer key_of m s x).2.fifo ≡ s.fifo
  offer-fifo_other view m s x ev fits q = offer-fifo m s x fits ∙ rw (ev, q)

  -- The FIFO lane after a past of queued messages.
  offers-fifo_from :
      (p : ℕ) (view : Option (M → Result Bool)) (m : BackendMetrics) (s : Subscriber K M)
      (past xs : List M)
      → s.max_pending ≡ p
      → s.view_filter ≡ view
      → IsValid s
      → s.fifo ≡ slice_last p past
      → (offers m s xs).1.fifo ≡ slice_last p (past ++ filter (queued view) xs)
  unfolding offers
  offers-fifo_from p view m s past [] ep ev v h = rw (append-nil past) h
  offers-fifo_from p view m s past (x ∷ xs) ep ev v h =
      let t = offer key_of m s x in
      let step : (now : List M)
          → t.2.fifo ≡ slice_last p now
          → (offers t.1 t.2 xs).1.fifo ≡ slice_last p (now ++ filter (queued view) xs) =
        λ now g.
          offers-fifo_from p view t.1 t.2 now xs ((offer_settings m s x).0 ∙ ep)
            ((offer_settings m s x).2 ∙ ev) (offer-IsValid key_of m s x v) g in
      elim (Bool-cases (queued view x)) [
        | inl q ↦ rw q (
            step (past ++ x ∷ []) (offer-fifo_queued p view m s past x ep ev v.fifo_fits h q)
            ∙ ap (slice_last p) (append_assoc past (x ∷ []) (filter (queued view) xs)))
        | inr n ↦ rw n (step past (offer-fifo_other view m s x ev v.fifo_fits n ∙ h))
      ]

  -- From a valid subscriber, after any messages with no flush between, the FIFO lane is what it
  -- held and the keyless messages that the view shows, in order and cut to the newest
  -- max_pending; coalesced traffic removes none.
  pub offers-fifo :
      (m : BackendMetrics) (s : Subscriber K M) (xs : List M)
      → IsValid s
      → (offers m s xs).1.fifo
        ≡ slice_last s.max_pending (s.fifo ++ filter (queued s.view_filter) xs)
  offers-fifo m s xs v =
      offers-fifo_from s.max_pending s.view_filter m s s.fifo xs refl refl v
        (ap (λ k. drop k s.fifo) (within (length s.fifo) v.fifo_fits))
    where
      within : (n : ℕ) → n ≤ s.max_pending → 0 ≡ n - s.max_pending
      within n h = omega arith

  has_key : Result (Option K) → K → Bool
  has_key (ok (some k)) j = e.beq k j
  has_key _ j = false

  -- Messages that the view shows and that are states of the key `j`.
  unfoldable pub updates : Option (M → Result Bool) → K → M → Bool
  unfolding has_key
  updates view j x = shows view x && has_key (key_of x) j

  abbrev pub last_or : Option M → List M → Option M
  last_or d [] = d
  last_or d (x ∷ xs) = last_or (some x) xs

  supersede-lookup :
      (d : List (K × M)) (key j : K) (x : M)
      → Distinct d
      → lookup (supersede d key x) j ≡ (if e.beq key j then some x else lookup d j)
  unfolding supersede
  supersede-lookup d key j x h = ground (
    arith,
    lookup-append (without d key) key j x (contains-without_self d key h),
    lookup-without d key j h,
  )

  accept-lookup :
      (key : Result (Option K)) (m : BackendMetrics) (s : Subscriber K M) (x : M) (j : K)
      → Distinct s.coalesced
      → length s.coalesced < s.coalesced_max
      → lookup (accept key m s x).2.coalesced j
        ≡ (if has_key key j then some x else lookup s.coalesced j)
  unfolding accept enqueue coalesce is_full has_key
  accept-lookup (raise f) m s x j h room = refl
  accept-lookup (ok none) m s x j h room = refl
  accept-lookup (ok (some key)) m s x j h room =
      ground (arith, supersede-lookup s.coalesced key j x h, lookup-append s.coalesced key j x)

  offer-lookup :
      (m : BackendMetrics) (s : Subscriber K M) (x : M) (j : K)
      → Distinct s.coalesced
      → length s.coalesced < s.coalesced_max
      → lookup (offer key_of m s x).2.coalesced j
        ≡ (if updates s.view_filter j x then some x else lookup s.coalesced j)
  unfolding offer after_view filter_out updates
  offer-lookup m s x j h room = elim (view-cases (hides s.view_filter x)) [
    | inl hidden ↦ rw hidden
    | inr (inl shown) ↦ rw shown (accept-lookup (key_of x) m s x j h room)
    | inr (inr (y, raised)) ↦ rw raised refl
  ]

  accept-lane_length :
      (key : Result (Option K)) (m : BackendMetrics) (s : Subscriber K M) (x : M)
      → length (accept key m s x).2.coalesced ≤ length s.coalesced + 1
  unfolding accept enqueue coalesce supersede is_full
  accept-lane_length (raise f) m s x = omega arith
  accept-lane_length (ok none) m s x = omega arith
  accept-lane_length (ok (some key)) m s x = ground (
    arith,
    length-without s.coalesced key,
    length-append (without s.coalesced key) ((key, x) ∷ []),
    length-append s.coalesced ((key, x) ∷ []),
    length-append (popitem s.coalesced) ((key, x) ∷ []),
    length-popitem-le s.coalesced,
  )

  offer-lane_length :
      (m : BackendMetrics) (s : Subscriber K M) (x : M)
      → length (offer key_of m s x).2.coalesced ≤ length s.coalesced + 1
  unfolding offer after_view filter_out
  offer-lane_length m s x = elim (view-cases (hides s.view_filter x)) [
    | inl hidden ↦ rw hidden (omega arith)
    | inr (inl shown) ↦ rw shown (accept-lane_length (key_of x) m s x)
    | inr (inr (y, raised)) ↦ rw raised (omega arith)
  ]

  offers-newest_from :
      (c : ℕ) (view : Option (M → Result Bool)) (m : BackendMetrics) (s : Subscriber K M) (j : K)
      (xs : List M)
      → s.coalesced_max ≡ c
      → s.view_filter ≡ view
      → IsValid s
      → length s.coalesced + length xs ≤ c
      → lookup (offers m s xs).1.coalesced j
        ≡ last_or (lookup s.coalesced j) (filter (updates view j) xs)
  unfolding offers
  offers-newest_from c view m s j [] ec ev v room = refl
  offers-newest_from c view m s j (x ∷ xs) ec ev v room =
      let t = offer key_of m s x in
      let now : lookup t.2.coalesced j
          ≡ (if updates view j x then some x else lookup s.coalesced j) =
        offer-lookup m s x j v.distinct (omega arith) ∙ rw ev in
      offers-newest_from c view t.1 t.2 j xs ((offer_settings m s x).1 ∙ ec)
        ((offer_settings m s x).2 ∙ ev) (offer-IsValid key_of m s x v)
        (omega (arith, offer-lane_length m s x))
      ∙ rw now (ground arith)

  -- From a valid subscriber, after any messages that are no more than the coalescing lane has
  -- room for and with no flush between, the pending message of each key is the newest one with
  -- that key that the view shows, or the one pending before if there is none.
  pub offers-newest :
      (m : BackendMetrics) (s : Subscriber K M) (j : K) (xs : List M)
      → IsValid s
      → length s.coalesced + length xs ≤ s.coalesced_max
      → lookup (offers m s xs).1.coalesced j
        ≡ last_or (lookup s.coalesced j) (filter (updates s.view_filter j) xs)
  offers-newest m s j xs v room =
      offers-newest_from s.coalesced_max s.view_filter m s j xs refl refl v room
