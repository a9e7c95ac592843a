-- ===== src/Backend/Broadcaster/Subscribers/Lanes.antt =====
-- backend/app/core/broadcaster.py: lemmas on the two lanes of a subscriber, the OrderedDict of
-- coalesced messages and the FIFO deque.
use radiation_tracking.Prelude.{
  ℕ, suc, ◌-◌, ◌≡◌, refl, ap, true, false, Option, none, some, List, [], ◌∷◌, ◌++◌, arith, length,
  drop, slice_last, if◌then◌else◌, Bool-cases, inl, inr, drop-nil,
}
use radiation_tracking.Backend.Broadcaster.Subscribers.{KeyEq, shed, contains, without, popitem}

module _ {M : Type 0} where
  -- The loop keeps the newest messages up to the cap, and counts the others.
  pub shed-slice_last : (n : ℕ) (xs : List M) → shed n xs ≡ (slice_last n xs, length xs - n)
  unfolding shed
  shed-slice_last n [] = ground (arith, drop-nil {A = M} (0 - n))
  shed-slice_last n (x ∷ xs) =
      ground (arith, shed-slice_last n xs, step (suc (length xs) - n) (length xs - n))
    where
      step : (a b : ℕ) → a ≡ suc b → drop a (x ∷ xs) ≡ drop b xs
      step a b e = ap (λ k. drop k (x ∷ xs)) e

module _ {K M : Type 0} ⦃e : KeyEq K⦄ where
  -- The pending message of a key.
  unfoldable pub lookup : List (K × M) → K → Option M
  lookup [] key = none
  lookup ((k, m) ∷ d) key = if e.beq k key then some m else lookup d key

  -- No key stands twice.
  abbrev pub Distinct : List (K × M) → Type 0
  Distinct [] = Unit
  Distinct ((k, m) ∷ d) = (contains d k ≡ false) × Distinct d

  pub length-without :
      (d : List (K × M)) (key : K) → contains d key ≡ true → suc (length (without d key)) ≡ length d
  unfolding contains without
  length-without [] key h = cc
  length-without ((k, m) ∷ d) key h = ground (arith, length-without d key)

  pub contains-append :
      (d : List (K × M)) (k key : K) (m : M)
      → contains (d ++ (k, m) ∷ []) key ≡ (if contains d key then true else e.beq k key)
  unfolding contains
  contains-append [] k key m = ground arith
  contains-append ((j, n) ∷ d) k key m = ground (arith, contains-append d k key m)

  pub contains-without_ne :
      (d : List (K × M)) (key j : K) → contains d j ≡ false → contains (without d key) j ≡ false
  unfolding contains without
  contains-without_ne [] key j h = refl
  contains-without_ne ((k, m) ∷ d) key j h = ground (arith, contains-without_ne d key j)

  pub contains-without_self :
      (d : List (K × M)) (key : K) → Distinct d → contains (without d key) key ≡ false
  unfolding contains without
  contains-without_self [] key h = refl
  contains-without_self ((k, m) ∷ d) key h =
      ground (arith, e.beq_iff k key, contains-without_self d key h.1, h.0)

  pub Distinct-without : (d : List (K × M)) (key : K) → Distinct d → Distinct (without d key)
  unfolding without
  Distinct-without [] key h = tt
  Distinct-without ((k, m) ∷ d) key h = elim (Bool-cases (e.beq k key)) [
    | inl same ↦ rw same h.1
    | inr other ↦ rw other (contains-without_ne d key k h.0, Distinct-without d key h.1)
  ]

  pub Distinct-append :
      (d : List (K × M)) (k : K) (m : M)
      → Distinct d
      → contains d k ≡ false
      → Distinct (d ++ (k, m) ∷ [])
  unfolding contains
  Distinct-append [] k m h c = (refl, tt)
  Distinct-append ((j, n) ∷ d) k m h c = (
    ground (arith, contains-append d k j m, e.beq_iff k j, e.beq_iff j k, h.0),
    Distinct-append d k m h.1 (ground arith),
  )

  pub Distinct-popitem : (d : List (K × M)) → Distinct d → Distinct (popitem d)
  Distinct-popitem [] h = tt
  Distinct-popitem (x ∷ d) h = h.1

  pub contains-popitem :
      (d : List (K × M)) (key : K) → contains d key ≡ false → contains (popitem d) key ≡ false
  unfolding contains
  contains-popitem [] key h = refl
  contains-popitem ((k, m) ∷ d) key h = ground arith

  pub lookup-append :
      (d : List (K × M)) (k key : K) (m : M)
      → contains d k ≡ false
      → lookup (d ++ (k, m) ∷ []) key ≡ (if e.beq k key then some m else lookup d key)
  unfolding lookup contains
  lookup-append [] k key m h = refl
  lookup-append ((j, n) ∷ d) k key m h =
      ground (arith, lookup-append d k key m, e.beq_iff k key, e.beq_iff j key, e.beq_iff j k)

  pub lookup-without :
      (d : List (K × M)) (key j : K)
      → Distinct d
      → lookup (without d key) j ≡ (if e.beq key j then none else lookup d j)
  unfolding lookup without contains
  lookup-without [] key j h = ground arith
  lookup-without ((k, m) ∷ d) key j h = ground (
    arith,
    lookup-without d key j h.1,
    e.beq_iff k key,
    e.beq_iff k j,
    e.beq_iff key j,
    absent d k j h.0,
  )
    where
      absent :
          (d : List (K × M)) (k j : K) → contains d k ≡ false → e.beq k j ≡ true → lookup d j ≡ none
      absent [] k j h s = refl
      absent ((i, n) ∷ d) k j h s =
          ground (arith, absent d k j, e.beq_iff i k, e.beq_iff i j, e.beq_iff k j)
