-- ===== src/Prelude/Filter.antt =====
-- Lemmas on `filter`, `drop` and `slice_last`.
use Prim.Native.Nat.{ℕ, zero, suc, ◌+◌, ◌-◌, ◌≤◌, min}
use mathlib.Core.Path.{◌≡◌, refl, ap, ◌∙◌, sym, ◌≡⟨◌⟩◌, ◌∎}
use mathlib.Core.Bool.{Bool, true, false}
use mathlib.Core.Logic.{inl, inr}
use mathlib.Core.List.{List, [], ◌∷◌, ◌++◌, map}
use native.Mathlib.Omega.{arith}
use radiation_tracking.Prelude.Tests.{Bool-cases}
use radiation_tracking.Prelude.Lists.{
  length, drop, All, filter, slice_last, length-append, length-drop, drop-nil,
}

module _ {ℓ} {A : Type ℓ} where
  pub filter_comm : (p q : A → Bool) (xs : List A) → filter p (filter q xs) ≡ filter q (filter p xs)
  filter_comm p q [] = refl
  filter_comm p q (x ∷ xs) = ground (arith, filter_comm p q xs)

  -- A weaker test before a stronger one changes nothing.
  pub filter-filter_weaker :
      (p q : A → Bool) (xs : List A)
      → ((x : A) → p x ≡ true → q x ≡ true)
      → filter p (filter q xs) ≡ filter p xs
  filter-filter_weaker p q [] h = refl
  filter-filter_weaker p q (x ∷ xs) h = ground (arith, h x, filter-filter_weaker p q xs h)

  pub filter-append :
      (p : A → Bool) (xs ys : List A) → filter p (xs ++ ys) ≡ filter p xs ++ filter p ys
  filter-append p [] ys = refl
  filter-append p (x ∷ xs) ys = ground (arith, filter-append p xs ys)

  pub filter-eq_self : (p : A → Bool) (xs : List A) → All (λ x. p x ≡ true) xs → filter p xs ≡ xs
  filter-eq_self p [] h = refl
  filter-eq_self p (x ∷ xs) h = ground (arith, h.0, filter-eq_self p xs h.1)

  pub filter-none : (p : A → Bool) (xs : List A) → All (λ x. p x ≡ false) xs → filter p xs ≡ []
  filter-none p [] h = refl
  filter-none p (x ∷ xs) h = ground (arith, h.0, filter-none p xs h.1)

  pub length-filter-le : (p : A → Bool) (xs : List A) → length (filter p xs) ≤ length xs
  length-filter-le p [] = omega arith
  length-filter-le p (x ∷ xs) = ground (arith, length-filter-le p xs)

  pub All-filter {κ} :
      (P : A → Type κ) (p : A → Bool) (xs : List A) → All P xs → All P (filter p xs)
  All-filter P p [] h = tt
  All-filter P p (x ∷ xs) h = elim (Bool-cases (p x)) [
    | inl e ↦ rw e (h.0, All-filter P p xs h.1)
    | inr e ↦ rw e (All-filter P p xs h.1)
  ]

  -- Every element that a filter keeps passes its test.
  pub filter-All : (p : A → Bool) (xs : List A) → All (λ x. p x ≡ true) (filter p xs)
  filter-All p [] = tt
  filter-All p (x ∷ xs) = elim (Bool-cases (p x)) [
    | inl e ↦ rw e (e, filter-All p xs)
    | inr e ↦ rw e (filter-All p xs)
  ]

  pub All-drop {κ} : (P : A → Type κ) (n : ℕ) (xs : List A) → All P xs → All P (drop n xs)
  All-drop P zero xs h = h
  All-drop P (suc n) [] h = tt
  All-drop P (suc n) (x ∷ xs) h = All-drop P n xs h.1

  pub All-append_left {κ} : (P : A → Type κ) (xs ys : List A) → All P (xs ++ ys) → All P xs
  All-append_left P [] ys h = tt
  All-append_left P (x ∷ xs) ys h = (h.0, All-append_left P xs ys h.1)

  pub All-append_right {κ} : (P : A → Type κ) (xs ys : List A) → All P (xs ++ ys) → All P ys
  All-append_right P [] ys h = h
  All-append_right P (x ∷ xs) ys h = All-append_right P xs ys h.1

  pub drop-append : (n : ℕ) (xs ys : List A) → n ≤ length xs → drop n (xs ++ ys) ≡ drop n xs ++ ys
  drop-append zero xs ys h = refl
  drop-append (suc n) [] ys h = absurd (omega arith)
  drop-append (suc n) (x ∷ xs) ys h = drop-append n xs ys (omega arith)

  pub drop-drop : (m n : ℕ) (xs : List A) → drop m (drop n xs) ≡ drop (n + m) xs
  drop-drop m zero xs = ap (λ k. drop k xs) (omega arith)
  drop-drop zero (suc n) [] = sym (drop-nil (suc n + zero))
  drop-drop (suc m) (suc n) [] = sym (drop-nil (suc n + suc m))
  drop-drop m (suc n) (x ∷ xs) = drop-drop m n xs ∙ shift (n + m) (suc n + m) (omega arith)
    where
      shift : (a b : ℕ) → b ≡ suc a → drop a xs ≡ drop b (x ∷ xs)
      shift a b e = ap (λ k. drop k (x ∷ xs)) (sym e)

  -- Cutting to the last `k` before one more element changes nothing of the last `k` after it.
  pub slice_last-append :
      (k : ℕ) (xs ys : List A) → slice_last k (slice_last k xs ++ ys) ≡ slice_last k (xs ++ ys)
  slice_last-append k xs ys =
      let d : ℕ = length xs - k in
      slice_last k (drop d xs ++ ys)
      ≡⟨ ap (slice_last k) (sym (drop-append d xs ys (omega arith))) ⟩
        slice_last k (drop d (xs ++ ys))
      ≡⟨ drop-drop (length (drop d (xs ++ ys)) - k) d (xs ++ ys) ⟩
        drop (d + (length (drop d (xs ++ ys)) - k)) (xs ++ ys)
      ≡⟨ ap (λ n. drop n (xs ++ ys))
          (omega (arith, length-drop d (xs ++ ys), length-append xs ys)) ⟩
        slice_last k (xs ++ ys) ∎

  pub slice_last-slice_last :
      (m k : ℕ) (xs : List A) → slice_last m (slice_last k xs) ≡ slice_last (min m k) xs
  slice_last-slice_last m k xs =
      drop-drop (length (slice_last k xs) - m) (length xs - k) xs
      ∙ ap (λ n. drop n xs) (omega (arith, length-drop (length xs - k) xs))

  pub drop-map {κ} :
      {B : Type κ} (f : A → B) (n : ℕ) (xs : List A) → drop n (map f xs) ≡ map f (drop n xs)
  drop-map f zero xs = refl
  drop-map f (suc n) [] = refl
  drop-map f (suc n) (x ∷ xs) = drop-map f n xs

  pub length-map {κ} : {B : Type κ} (f : A → B) (xs : List A) → length (map f xs) ≡ length xs
  length-map f [] = refl
  length-map f (x ∷ xs) = ap suc (length-map f xs)

pub slice_last-map {ℓ κ} :
    {A : Type ℓ} {B : Type κ} (f : A → B) (n : ℕ) (xs : List A)
    → slice_last n (map f xs) ≡ map f (slice_last n xs)
slice_last-map f n xs = rw (length-map f xs) (drop-map f (length xs - n) xs)
