-- ===== src/Backend/Broadcaster/Subscribers/Bounds.antt =====
-- backend/app/core/broadcaster.py, class Subscriber: a stalled client's buffer stays within its
-- caps, holds each key once, and is marked ready while anything is pending.
use radiation_tracking.Prelude.{
  ℕ, ◌-◌, ◌≤◌, max, ◌≡◌, refl, Bool, true, false, Option, none, some, List, [], ◌∷◌, ◌++◌, arith,
  length, Bool-cases, inl, inr, length-append, length-drop,
}
use radiation_tracking.Python.{Result, ok, raise}
use radiation_tracking.Backend.Metrics.{BackendMetrics}
use radiation_tracking.Backend.Broadcaster.Subscribers.{
  KeyEq, Subscriber, new_subscriber, set_view_filter, hides, enqueue, coalesce, contains, without,
  is_full, supersede, popitem, accept, offer, after_view, view-cases, filter_out, drain,
}
use radiation_tracking.Backend.Broadcaster.Subscribers.Lanes.{
  Distinct, shed-slice_last, length-without, contains-without_self, Distinct-without,
  Distinct-append, Distinct-popitem, contains-popitem,
}

module _ {K M : Type 0} ⦃e : KeyEq K⦄ where
  pub record IsValid (s : Subscriber K M) : Type 0 where
    pub fifo_fits : length s.fifo ≤ s.max_pending
    pub lane_fits : length s.coalesced ≤ max s.coalesced_max 1
    pub distinct : Distinct s.coalesced
    pub fifo_ready : s.ready ≡ false → s.fifo ≡ []
    pub lane_ready : s.ready ≡ false → s.coalesced ≡ []

  pub new_subscriber-IsValid : (p c : ℕ) → IsValid (new_subscriber p c)
  unfolding new_subscriber
  new_subscriber-IsValid p c = record {
    fifo_fits = omega arith;
    lane_fits = omega arith;
    distinct = tt;
    fifo_ready = λ h. refl;
    lane_ready = λ h. refl;
  }

  enqueue-IsValid :
      (m : BackendMetrics) (s : Subscriber K M) (x : M) → IsValid s → IsValid (enqueue m s x).1
  unfolding enqueue
  enqueue-IsValid m s x v =
      let all = s.fifo ++ x ∷ [] in
      rw (shed-slice_last s.max_pending all) (record {
        fifo_fits = omega (arith, length-drop (length all - s.max_pending) all);
        lane_fits = v.lane_fits;
        distinct = v.distinct;
        fifo_ready = λ h. cc;
        lane_ready = λ h. cc;
      })

  supersede-Distinct :
      (d : List (K × M)) (key : K) (x : M) → Distinct d → Distinct (supersede d key x)
  unfolding supersede
  supersede-Distinct d key x h =
      Distinct-append (without d key) key x (Distinct-without d key h)
        (contains-without_self d key h)

  length-supersede :
      (d : List (K × M)) (key : K) (x : M)
      → contains d key ≡ true
      → length (supersede d key x) ≡ length d
  unfolding supersede
  length-supersede d key x h =
      omega (arith, length-append (without d key) ((key, x) ∷ []), length-without d key h)

  coalesce-lane_fits :
      (m : BackendMetrics) (s : Subscriber K M) (key : K) (x : M)
      → IsValid s
      → length (coalesce m s key x).1.coalesced ≤ max (coalesce m s key x).1.coalesced_max 1
  unfolding coalesce is_full
  coalesce-lane_fits m s key x v = ground (
    arith,
    v.lane_fits,
    length-supersede s.coalesced key x,
    length-append s.coalesced ((key, x) ∷ []),
    length-append (popitem s.coalesced) ((key, x) ∷ []),
  )

  coalesce-Distinct :
      (m : BackendMetrics) (s : Subscriber K M) (key : K) (x : M)
      → IsValid s
      → Distinct (coalesce m s key x).1.coalesced
  unfolding coalesce
  coalesce-Distinct m s key x v = elim (Bool-cases (contains s.coalesced key)) [
    | inl old ↦ rw old (supersede-Distinct s.coalesced key x v.distinct)
    | inr new ↦ rw new (elim (Bool-cases (is_full s)) [
      | inl full ↦ rw full (
          Distinct-append (popitem s.coalesced) key x (Distinct-popitem s.coalesced v.distinct)
            (contains-popitem s.coalesced key new))
      | inr room ↦ rw room (Distinct-append s.coalesced key x v.distinct new)
    ])
  ]

  coalesce-IsValid :
      (m : BackendMetrics) (s : Subscriber K M) (key : K) (x : M)
      → IsValid s
      → IsValid (coalesce m s key x).1
  coalesce-IsValid m s key x v = record {
    fifo_fits = unfold coalesce in ground (arith, v.fifo_fits);
    lane_fits = coalesce-lane_fits m s key x v;
    distinct = coalesce-Distinct m s key x v;
    fifo_ready = unfold coalesce in ground arith;
    lane_ready = unfold coalesce in ground arith;
  }

  accept-IsValid :
      (key : Result (Option K)) (m : BackendMetrics) (s : Subscriber K M) (x : M)
      → IsValid s
      → IsValid (accept key m s x).2
  unfolding accept
  accept-IsValid (raise f) m s x v = v
  accept-IsValid (ok none) m s x v = enqueue-IsValid m s x v
  accept-IsValid (ok (some key)) m s x v = coalesce-IsValid m s key x v

  pub drain-IsValid : (s : Subscriber K M) → IsValid s → IsValid (drain s).1
  unfolding drain
  drain-IsValid s v = record {
    fifo_fits = omega arith;
    lane_fits = omega arith;
    distinct = tt;
    fifo_ready = λ h. refl;
    lane_ready = λ h. refl;
  }

  pub set_view_filter-IsValid :
      (s : Subscriber K M) (f : Option (M → Result Bool))
      → IsValid s
      → IsValid (set_view_filter s f)
  unfolding set_view_filter
  set_view_filter-IsValid s f v = record {
    fifo_fits = v.fifo_fits;
    lane_fits = v.lane_fits;
    distinct = v.distinct;
    fifo_ready = v.fifo_ready;
    lane_ready = v.lane_ready;
  }

module _ {K M : Type 0} ⦃e : KeyEq K⦄ (key_of : M → Result (Option K)) where
  -- offer keeps the buffer valid, also when the view or computing the key raises: the FIFO lane
  -- within max_pending, the coalescing lane within max(coalesced_max, 1), no key pending twice,
  -- and the ready flag set while anything is pending.
  pub offer-IsValid :
      (m : BackendMetrics) (s : Subscriber K M) (x : M) → IsValid s → IsValid (offer key_of m s x).2
  unfolding offer after_view
  offer-IsValid m s x v = elim (view-cases (hides s.view_filter x)) [
    | inl hidden ↦ rw hidden (
        unfold filter_out in
        record {
          fifo_fits = v.fifo_fits;
          lane_fits = v.lane_fits;
          distinct = v.distinct;
          fifo_ready = v.fifo_ready;
          lane_ready = v.lane_ready;
        })
    | inr (inl shown) ↦ rw shown (accept-IsValid (key_of x) m s x v)
    | inr (inr (y, raised)) ↦ rw raised v
  ]
