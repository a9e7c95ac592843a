-- ===== src/Python/Extrema.antt =====
-- Python's `max` and `min` of a list: the first of the largest, or of the smallest, by a key.
use radiation_tracking.Prelude.{
  ◌≡◌, refl, subst, Bool, true, false, List, [], ◌∷◌, All, Memᴰ, arith, if◌then◌else◌, Bool-cases,
  inl, inr, ◌⊎◌,
}
use radiation_tracking.Python.Exceptions.{Result, ok, raise, value_error}

module _ {A K : Type 0} (before : K → K → Bool) (key : A → K) where
  abbrev pub best_from : A → List A → A
  best_from best [] = best
  best_from best (x ∷ xs) = best_from (if before (key best) (key x) then x else best) xs

  -- ValueError where there is nothing to choose from.
  abbrev pub best : List A → Result A
  best [] = raise value_error
  best (x ∷ xs) = ok (best_from x xs)

  -- No element of the list comes after `b`.
  abbrev pub Unbeaten : A → List A → Type 0
  Unbeaten b xs = All (λ y. before (key b) (key y) ≡ false) xs

  pub best_from-Memᴰ : (x : A) (xs : List A) → Memᴰ (best_from x xs) (x ∷ xs)
  best_from-Memᴰ x [] = Memᴰ.head refl
  best_from-Memᴰ x (y ∷ ys) = elim (Bool-cases (before (key x) (key y))) [
    | inl e ↦ rw e (Memᴰ.tail (best_from-Memᴰ y ys))
    | inr e ↦ rw e (past (best_from x ys) (best_from-Memᴰ x ys))
  ]
    where
      past : (b : A) → Memᴰ b (x ∷ ys) → Memᴰ b (x ∷ y ∷ ys)
      past b (Memᴰ.head e) = Memᴰ.head e
      past b (Memᴰ.tail m) = Memᴰ.tail (Memᴰ.tail m)

  module _ (irrefl : (k : K) → before k k ≡ false)
      (trans : (a b c : K) → before a b ≡ true → before b c ≡ true → before a c ≡ true) where
    not-before :
        (b x y : A)
        → before (key x) (key y) ≡ true
        → before (key b) (key y) ≡ false
        → before (key b) (key x) ≡ false
    not-before b x y h k = ground (arith, trans (key b) (key x) (key y))

    climbs :
        (x : A) (xs : List A)
        → (key (best_from x xs) ≡ key x) ⊎ (before (key x) (key (best_from x xs)) ≡ true)
    climbs x [] = inl refl
    climbs x (y ∷ ys) = elim (Bool-cases (before (key x) (key y))) [
      | inl e ↦ rw e (
          inr (elim (climbs y ys) [
            | inl same ↦ rw same e
            | inr up ↦ trans (key x) (key y) (key (best_from y ys)) e up
          ]))
      | inr e ↦ rw e (climbs x ys)
    ]

    still :
        (x y : A) (ys : List A)
        → before (key x) (key y) ≡ false
        → before (key (best_from x ys)) (key y) ≡ false
    still x y ys e = elim (climbs x ys) [
      | inl same ↦ rw same e
      | inr up ↦ ground (arith, trans (key x) (key (best_from x ys)) (key y))
    ]

    -- No element comes after the best one.
    pub best_from-All : (x : A) (xs : List A) → Unbeaten (best_from x xs) (x ∷ xs)
    best_from-All x [] = (irrefl (key x), tt)
    best_from-All x (y ∷ ys) = elim (Bool-cases (before (key x) (key y))) [
      | inl e ↦
          let below = best_from-All y ys in
          subst (λ b. Unbeaten b (x ∷ y ∷ ys)) {x = best_from y ys} {y = best_from x (y ∷ ys)}
            (rw e refl) (not-before (best_from y ys) x y e below.0, below)
      | inr e ↦
          let below = best_from-All x ys in
          subst (λ b. Unbeaten b (x ∷ y ∷ ys)) {x = best_from x ys} {y = best_from x (y ∷ ys)}
            (rw e refl) (below.0, (still x y ys e, below.1))
    ]
