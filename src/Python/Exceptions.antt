-- ===== src/Python/Exceptions.antt =====
-- Exceptions as values.
use radiation_tracking.Prelude.{
  List, [], ◌∷◌, Option, none, some, ◌≡◌, refl, subst, ◌⊎◌, inl, inr, arith,
}

pub data Exception : Type 0 where
  key_error type_error value_error attribute_error : Exception
  overflow_error zero_division_error : Exception
  -- JSONDecodeError and UnicodeDecodeError, both subclasses of ValueError
  json_decode_error unicode_decode_error : Exception

pub data Result {ℓ} (A : Type ℓ) : Type ℓ where
  ok : A → Result A
  raise : Exception → Result A

infixl 5 ◌>>=◌ ◌>>◌
abbrev pub ◌>>=◌ {ℓ κ} : {A : Type ℓ} {B : Type κ} → Result A → (A → Result B) → Result B
ok a >>= f = f a
raise e >>= f = raise e

abbrev pub ◌>>◌ {ℓ κ} : {A : Type ℓ} {B : Type κ} → Result A → Result B → Result B
m >> k = m >>= λ _. k

-- `[f(x) for x in xs]`, where `f` may raise.
unfoldable pub traverse {ℓ κ} :
    {A : Type ℓ} {B : Type κ} → (A → Result B) → List A → Result (List B)
traverse f [] = ok []
traverse f (x ∷ xs) = do y ← f x; ys ← traverse f xs; ok (y ∷ ys)

-- `except (KeyError, ValueError, TypeError)`: `ok none` where one of these was raised.
unfoldable pub tolerate {ℓ} : {A : Type ℓ} → Result A → Result (Option A)
tolerate (ok a) = ok (some a)
tolerate (raise attribute_error) = raise attribute_error
tolerate (raise overflow_error) = raise overflow_error
tolerate (raise zero_division_error) = raise zero_division_error
tolerate (raise _) = ok none

-- What `except (KeyError, ValueError, TypeError)` lets through: a value or one of these exceptions.
abbrev pub Tolerated {ℓ} : {A : Type ℓ} → Result A → Type 0
Tolerated (raise attribute_error) = ⊥
Tolerated (raise overflow_error) = ⊥
Tolerated (raise zero_division_error) = ⊥
Tolerated _ = Unit

-- The value, or the exception where there is none.
unfoldable pub or_raise {ℓ} : {A : Type ℓ} → Exception → Option A → Result A
or_raise e none = raise e
or_raise e (some a) = ok a

pub Result-cases {ℓ} :
    {A : Type ℓ} (r : Result A) → ((a : A) × (r ≡ ok a)) ⊎ ((e : Exception) × (r ≡ raise e))
Result-cases (ok a) = inl (a, refl)
Result-cases (raise e) = inr (e, refl)

module _ {ℓ} {A : Type ℓ} {B : Type 0} (f : A → Result B) where
  -- `ys` are what `f` returns at each of `xs`.
  abbrev pub Each : List A → List B → Type 0
  Each [] [] = Unit
  Each (x ∷ xs) (y ∷ ys) = (f x ≡ ok y) × Each xs ys
  Each _ _ = ⊥

  pub traverse-Each : (xs : List A) (ys : List B) → traverse f xs ≡ ok ys → Each xs ys
  unfolding traverse
  traverse-Each [] [] h = tt
  traverse-Each [] (y ∷ ys) h = absurd (ground arith)
  traverse-Each (x ∷ xs) ys h = elim (Result-cases (f x)) [
    | inr (e, hx) ↦ absurd (ground arith)
    | inl (a, hx) ↦ elim (Result-cases (traverse f xs)) [
      | inr (e, hr) ↦ absurd (ground arith)
      | inl (bs, hr) ↦
          let e : (a ∷ bs) ≡ ys = ground arith in
          subst (Each (x ∷ xs)) e (hx, traverse-Each xs bs hr)
    ]
  ]

  pub Each-traverse : (xs : List A) (ys : List B) → Each xs ys → traverse f xs ≡ ok ys
  unfolding traverse
  Each-traverse [] [] h = refl
  Each-traverse (x ∷ xs) (y ∷ ys) h = rw (h.0, Each-traverse xs ys h.1) refl
  Each-traverse [] (y ∷ ys) h = absurd h
  Each-traverse (x ∷ xs) [] h = absurd h
