-- ===== src/Backend/RingBuffer/Append.antt =====
-- backend/app/core/ring_buffer.py: the buffer after any sequence of appends.
use radiation_tracking.Prelude.{
  ℕ, zero, suc, ◌+◌, ◌-◌, ◌≤◌, ◌<◌, min, ◌≡◌, refl, sym, ap, ◌∙◌, Bool, false, none, some, List, [],
  ◌∷◌, ◌++◌, append-nil, append_assoc, arith, length, drop, drop-nil, All, filter, slice_last,
  slice_last-append, slice_last-slice_last, slice_last-map, length-filter-le, length-drop,
}
use Prim.Native.Nat.add
use radiation_tracking.Prelude.Int.{pos, leb_ℤ}
use radiation_tracking.Backend.RingBuffer.{
  BufferedEvent, RingBuffer, init, append, recent, older, matching,
}
use radiation_tracking.Backend.RingBuffer.Paging.{Increasing, events_of, walk, walk_complete}

module _ {E : Type 0} where
  -- The events numbered by their arrival.
  abbrev pub number : ℕ → List E → List (BufferedEvent E)
  number n [] = []
  number n (e ∷ es) = (record { seq = n; event = e }) ∷ number (suc n) es

  -- The buffer after the events of a stream, in order of arrival.
  abbrev pub appends : RingBuffer E → List E → RingBuffer E
  appends b [] = b
  appends b (e ∷ es) = appends (append b e) es

  entries-appends :
      (b : RingBuffer E) (past : List (BufferedEvent E)) (es : List E)
      → b.entries ≡ slice_last b.maxsize past
      → (appends b es).entries ≡ slice_last b.maxsize (past ++ number b.next_seq es)
  unfolding append
  entries-appends b past [] h = rw (append-nil past) h
  entries-appends b past (e ∷ es) h =
      entries-appends (append b e) (past ++ x ∷ []) es cut ∙ ap (slice_last b.maxsize) shift
    where
      x : BufferedEvent E
      x = record { seq = b.next_seq; event = e }

      cut : slice_last b.maxsize (b.entries ++ x ∷ []) ≡ slice_last b.maxsize (past ++ x ∷ [])
      cut = rw h (slice_last-append b.maxsize past (x ∷ []))

      shift :
          (past ++ x ∷ []) ++ number (b.next_seq + 1) es ≡ past ++ x ∷ number (suc b.next_seq) es
      shift =
          append_assoc past (x ∷ []) (number (b.next_seq + 1) es)
          ∙ ap (λ k. past ++ x ∷ number k es) (omega arith)

  next_seq-appends :
      (b : RingBuffer E) (es : List E) → (appends b es).next_seq ≡ b.next_seq + length es
  unfolding append
  next_seq-appends b [] = omega arith
  next_seq-appends b (e ∷ es) = omega (arith, next_seq-appends (append b e) es)

  maxsize-appends : (b : RingBuffer E) (es : List E) → (appends b es).maxsize ≡ b.maxsize
  unfolding append
  maxsize-appends b [] = refl
  maxsize-appends b (e ∷ es) = maxsize-appends (append b e) es

  -- After a stream of events, a buffer of size `k` holds the newest `k` of them, numbered by their
  -- arrival, and the next sequence number is the number of events seen.
  pub appends_lem :
      (k : ℕ) (es : List E)
      → appends (init k) es
        ≡ record { maxsize = k; entries = slice_last k (number 0 es); next_seq = length es }
  unfolding init
  appends_lem k es = λ i. record {
    maxsize = maxsize-appends (init k) es i;
    entries = entries-appends (init k) [] es (sym (drop-nil (0 - k))) i;
    next_seq = (next_seq-appends (init k) es ∙ add.zero (length es)) i;
  }

  map-number : (n : ℕ) (es : List E) → events_of (number n es) ≡ es
  map-number n [] = refl
  map-number n (e ∷ es) = ap (λ l. e ∷ l) (map-number (suc n) es)

  -- `recent` returns the newest events, oldest first: as many as the limit asks for and the buffer
  -- can hold.
  pub recent-appends :
      (k n : ℕ) (es : List E)
      → recent (appends (init k) es) (pos (suc n)) ≡ slice_last (min (suc n) k) es
  unfolding recent
  recent-appends k n es = rw (appends_lem k es) (
      rw (positive (suc n) (omega arith)) (
        sym (slice_last-map _ (suc n) (slice_last k (number 0 es)))
        ∙ ap (slice_last (suc n)) (sym (slice_last-map _ k (number 0 es)))
        ∙ ap (λ l. slice_last (suc n) (slice_last k l)) (map-number 0 es)
        ∙ slice_last-slice_last (suc n) k es))
    where
      positive : (m : ℕ) → 0 < m → leb_ℤ (pos m) (pos 0) ≡ false
      positive m h = ground arith

  number-above : (n m : ℕ) (es : List E) → n < m → All (λ y. n < y.seq) (number m es)
  number-above n m [] h = tt
  number-above n m (e ∷ es) h = (h, number-above n (suc m) es (omega arith))

  number-Increasing : (n : ℕ) (es : List E) → Increasing (number n es)
  number-Increasing n [] = tt
  number-Increasing n (e ∷ es) =
      (number-above n (suc n) es (omega arith), number-Increasing (suc n) es)

  drop-Increasing : (n : ℕ) (xs : List (BufferedEvent E)) → Increasing xs → Increasing (drop n xs)
  drop-Increasing zero xs h = h
  drop-Increasing (suc n) [] h = tt
  drop-Increasing (suc n) (x ∷ xs) h = drop-Increasing n xs h.1

  pub appends-Increasing : (k : ℕ) (es : List E) → Increasing (appends (init k) es).entries
  appends-Increasing k es =
      rw (appends_lem k es)
        (drop-Increasing (length (number 0 es) - k) (number 0 es) (number-Increasing 0 es))

  events_of-filter :
      (m : E → Bool) (xs : List (BufferedEvent E))
      → events_of (filter (λ entry. m entry.event) xs) ≡ filter m (events_of xs)
  events_of-filter m [] = refl
  events_of-filter m (x ∷ xs) = ground (arith, events_of-filter m xs)

  entries-le : (k : ℕ) (es : List E) → length (appends (init k) es).entries ≤ k
  entries-le k es =
      rw (appends_lem k es) (omega (arith, length-drop (length (number 0 es) - k) (number 0 es)))

  -- After any stream of events into a buffer of size k, a client that pages backwards from the
  -- newest page through next_cursor, with any limit from 1 up and any view, receives exactly the
  -- matching ones among the newest k events, each once and in order of arrival.
  pub walk-appends :
      (k n fuel : ℕ) (es : List E) (m : E → Bool)
      → k < fuel
      → walk fuel (appends (init k) es) none (pos (suc n)) (some m) ≡ filter m (slice_last k es)
  unfolding older matching
  walk-appends k n fuel es m h =
      walk_complete fuel n b none (some m) (appends-Increasing k es) enough
      ∙ events_of-filter m b.entries
      ∙ ap (filter m) held
    where
      b : RingBuffer E
      b = appends (init k) es

      enough : length (filter (λ (x : BufferedEvent E). m x.event) b.entries) < fuel
      enough =
          omega (
            arith,
            entries-le k es,
            length-filter-le (λ (x : BufferedEvent E). m x.event) b.entries,
          )

      held : events_of b.entries ≡ slice_last k es
      held =
          ap (λ (r : RingBuffer E). events_of r.entries) (appends_lem k es)
          ∙ sym (slice_last-map _ k (number 0 es))
          ∙ ap (slice_last k) (map-number 0 es)
