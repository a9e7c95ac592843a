-- ===== src/Backend/RingBuffer/Paging.antt =====
-- backend/app/core/ring_buffer.py: what `page` returns, and that paging backwards loses nothing.
use radiation_tracking.Prelude.{
  ℕ, zero, suc, ◌-◌, ◌<◌, ◌≡◌, refl, sym, ap, ◌∙◌, Bool, true, false, Option, none, some, List, [],
  ◌∷◌, ◌++◌, map, map-append, arith, length, take, All, filter, slice_last, Bool-cases, inl, inr,
  filter_comm, filter-filter_weaker, filter-none, All-filter, filter-All, All-append_right,
  length-append, length-drop, length-take, take-append-drop,
}
use radiation_tracking.Prelude.Int.{ℤ, pos, ltb_ℤ}
use mathlib.Core.Path.{◌≡⟨◌⟩◌, ◌∎}
use radiation_tracking.Backend.RingBuffer.{
  BufferedEvent, RingBuffer, Page, older, matching, page_of, page,
}

module _ {E : Type 0} where
  -- Sequence numbers that grow from the oldest entry to the newest.
  abbrev pub Increasing : List (BufferedEvent E) → Type 0
  Increasing [] = Unit
  Increasing (x ∷ xs) = All (λ y. x.seq < y.seq) xs × Increasing xs

  -- What a request at this cursor may return.
  abbrev pub candidates : RingBuffer E → Option ℤ → Option (E → Bool) → List (BufferedEvent E)
  candidates b cursor matches = matching matches (older cursor b.entries)

  abbrev pub events_of : List (BufferedEvent E) → List E
  events_of = map (λ entry. entry.event)

  filter-Increasing :
      (p : BufferedEvent E → Bool) (xs : List (BufferedEvent E))
      → Increasing xs
      → Increasing (filter p xs)
  filter-Increasing p [] h = tt
  filter-Increasing p (x ∷ xs) h = elim (Bool-cases (p x)) [
    | inl e ↦ rw e (All-filter (λ y. x.seq < y.seq) p xs h.0, filter-Increasing p xs h.1)
    | inr e ↦ rw e (filter-Increasing p xs h.1)
  ]

  older-Increasing :
      (c : Option ℤ) (xs : List (BufferedEvent E)) → Increasing xs → Increasing (older c xs)
  unfolding older
  older-Increasing none xs h = h
  older-Increasing (some c) xs h = filter-Increasing _ xs h

  matching-Increasing :
      (m : Option (E → Bool)) (xs : List (BufferedEvent E))
      → Increasing xs
      → Increasing (matching m xs)
  unfolding matching
  matching-Increasing none xs h = h
  matching-Increasing (some m) xs h = filter-Increasing _ xs h

  above-fail :
      (s : ℕ) (xs : List (BufferedEvent E))
      → All (λ y. s < y.seq) xs
      → All (λ y. ltb_ℤ (pos y.seq) (pos s) ≡ false) xs
  above-fail s [] h = tt
  above-fail s (x ∷ xs) h = (ground (arith, h.0), above-fail s xs h.1)

  -- The cursor at the head of a window cuts off exactly what stands before the window.
  older-append :
      (xs : List (BufferedEvent E)) (w : BufferedEvent E) (ws : List (BufferedEvent E))
      → Increasing (xs ++ w ∷ ws)
      → older (some (pos w.seq)) (xs ++ w ∷ ws) ≡ xs
  unfolding older
  older-append [] w ws h = filter-none _ (w ∷ ws) (ground arith, above-fail w.seq ws h.0)
  older-append (x ∷ xs) w ws h =
      ground
        (arith, (All-append_right (λ y. x.seq < y.seq) xs (w ∷ ws) h.0).0, older-append xs w ws h.1)

  -- An entry that a cursor lets through.
  abbrev IsBelow : Option ℤ → BufferedEvent E → Type 0
  IsBelow none y = Unit
  IsBelow (some c) y = ltb_ℤ (pos y.seq) c ≡ true

  older-IsBelow : (c : Option ℤ) (xs : List (BufferedEvent E)) → All (IsBelow c) (older c xs)
  unfolding older
  older-IsBelow none [] = tt
  older-IsBelow none (x ∷ xs) = (tt, unfold older in older-IsBelow none xs)
  older-IsBelow (some c) xs = filter-All _ xs

  matching-All :
      (P : BufferedEvent E → Type 0) (m : Option (E → Bool)) (xs : List (BufferedEvent E))
      → All P xs
      → All P (matching m xs)
  unfolding matching
  matching-All P none xs h = h
  matching-All P (some m) xs h = All-filter P _ xs h

  -- A lower cursor after a higher one is the lower one.
  older-older :
      (c : Option ℤ) (w : BufferedEvent E) (xs : List (BufferedEvent E))
      → IsBelow c w
      → older (some (pos w.seq)) (older c xs) ≡ older (some (pos w.seq)) xs
  unfolding older
  older-older none w xs h = refl
  older-older (some c) w xs h = filter-filter_weaker _ _ xs (λ x below. ground arith)

  matching-older :
      (c : Option ℤ) (m : Option (E → Bool)) (xs : List (BufferedEvent E))
      → matching m (older c xs) ≡ older c (matching m xs)
  unfolding matching older
  matching-older none m xs = refl
  matching-older (some c) none xs = refl
  matching-older (some c) (some m) xs = filter_comm _ _ xs

  -- The next cursor leaves exactly the candidates before the window.
  candidates-next :
      (b : RingBuffer E) (c : Option ℤ) (m : Option (E → Bool)) (pre : List (BufferedEvent E))
      (w : BufferedEvent E) (ws : List (BufferedEvent E))
      → Increasing b.entries
      → candidates b c m ≡ pre ++ w ∷ ws
      → candidates b (some (pos w.seq)) m ≡ pre
  candidates-next b c m pre w ws inc e =
      matching m (older (some (pos w.seq)) b.entries)
      ≡⟨ ap (matching m) (sym (older-older c w b.entries below)) ⟩
        matching m (older (some (pos w.seq)) (older c b.entries))
      ≡⟨ matching-older (some (pos w.seq)) m (older c b.entries) ⟩
        older (some (pos w.seq)) (candidates b c m)
      ≡⟨ ap (older (some (pos w.seq))) e ⟩ older (some (pos w.seq)) (pre ++ w ∷ ws)
      ≡⟨ older-append pre w ws sorted ⟩ pre ∎
    where
      below : IsBelow c w
      below =
          (All-append_right (IsBelow c) pre (w ∷ ws)
            (rw e at (matching-All (IsBelow c) m _ (older-IsBelow c b.entries)))).0

      sorted : Increasing (pre ++ w ∷ ws)
      sorted = rw e at (matching-Increasing m _ (older-Increasing c b.entries inc))

  -- A client that pages backwards: it passes each `next_cursor` back, and puts older pages in front.
  abbrev pub follow : Page E → (ℕ → List E) → List E
  follow p next = elim p.next_cursor [ none ↦ p.events | some s ↦ next s ++ p.events ]

  unfoldable pub walk : ℕ → RingBuffer E → Option ℤ → ℤ → Option (E → Bool) → List E
  walk zero b c limit m = []
  walk (suc fuel) b c limit m = follow (page b c limit m) (λ s. walk fuel b (some (pos s)) limit m)

  follow-page_of :
      (pre ws : List (BufferedEvent E)) (next : ℕ → List E)
      → (ws ≡ [] → pre ≡ [])
      → ((w : BufferedEvent E) (rest : List (BufferedEvent E))
          → ws ≡ w ∷ rest
          → 0 < length pre
          → next w.seq ≡ events_of pre)
      → follow (page_of (pre ++ ws) ws) next ≡ events_of (pre ++ ws)
  unfolding page_of
  follow-page_of [] [] next h k = refl
  follow-page_of (p ∷ pre) [] next h k = cc (h refl)
  follow-page_of [] (w ∷ ws) next h k = ground arith
  follow-page_of (p ∷ pre) (w ∷ ws) next h k = ground (
    arith,
    k w ws refl (omega arith),
    map-append (λ (x : BufferedEvent E). x.event) (p ∷ pre) (w ∷ ws),
    length-append pre (w ∷ ws),
  )

  page_pos :
      (b : RingBuffer E) (c : Option ℤ) (n : ℕ) (m : Option (E → Bool))
      → page b c (pos (suc n)) m
        ≡ page_of (candidates b c m) (slice_last (suc n) (candidates b c m))
  unfolding page
  page_pos b c n m = ground arith

  length-zero : (xs : List (BufferedEvent E)) → length xs ≡ 0 → xs ≡ []
  length-zero [] h = refl
  length-zero (x ∷ xs) h = absurd (omega arith)

  -- A window of at least one place is empty only where nothing stands before it.
  window-empty :
      (n : ℕ) (xs : List (BufferedEvent E))
      → slice_last (suc n) xs ≡ []
      → take (length xs - suc n) xs ≡ []
  window-empty n xs e = length-zero _ (
      omega (
        arith,
        ap length e,
        length-drop (length xs - suc n) xs,
        length-take (length xs - suc n) xs,
      ))

  follow-split :
      (all pre ws : List (BufferedEvent E)) (next : ℕ → List E)
      → pre ++ ws ≡ all
      → (ws ≡ [] → pre ≡ [])
      → ((w : BufferedEvent E) (rest : List (BufferedEvent E))
          → ws ≡ w ∷ rest
          → 0 < length pre
          → next w.seq ≡ events_of pre)
      → follow (page_of all ws) next ≡ events_of all
  follow-split all pre ws next e h k = rw (sym e) (follow-page_of pre ws next h k)

  -- Paging backwards from any cursor, with any limit from 1 up, returns every matching event below
  -- the cursor once, in order.
  pub walk_complete :
      (fuel n : ℕ) (b : RingBuffer E) (c : Option ℤ) (m : Option (E → Bool))
      → Increasing b.entries
      → length (candidates b c m) < fuel
      → walk fuel b c (pos (suc n)) m ≡ events_of (candidates b c m)
  unfolding walk
  walk_complete zero n b c m inc lt = absurd (omega arith)
  walk_complete (suc fuel) n b c m inc lt = rw (page_pos b c n m) (
      follow-split all pre ws _ split (window-empty n all) (λ w rest e more.
        walk_complete fuel n b (some (pos w.seq)) m inc (shorter w rest e)
        ∙ ap events_of (next w rest e)))
    where
      all : List (BufferedEvent E)
      all = candidates b c m

      pre : List (BufferedEvent E)
      pre = take (length all - suc n) all

      ws : List (BufferedEvent E)
      ws = slice_last (suc n) all

      split : pre ++ ws ≡ all
      split = take-append-drop (length all - suc n) all

      next :
          (w : BufferedEvent E) (rest : List (BufferedEvent E))
          → ws ≡ w ∷ rest
          → candidates b (some (pos w.seq)) m ≡ pre
      next w rest e = candidates-next b c m pre w rest inc (rw e at (sym split))

      shorter :
          (w : BufferedEvent E) (rest : List (BufferedEvent E))
          → ws ≡ w ∷ rest
          → length (candidates b (some (pos w.seq)) m) < fuel
      shorter w rest e = omega (
        arith,
        ap length (next w rest e),
        length-take (length all - suc n) all,
        length-drop (length all - suc n) all,
        ap length e,
      )
