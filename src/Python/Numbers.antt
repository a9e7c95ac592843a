-- ===== src/Python/Numbers.antt =====
-- Python's numbers, `int` and `float` alike, as a type with the operations that the program calls.
-- `Order` holds of all numbers, NaN included: a comparison with NaN is false.
use radiation_tracking.Prelude.{ℕ, String, ◌≡◌, Bool, true, false, Option, some}

pub record Number (F : Type 0) : Type 0 where
  pub le : F → F → Bool
  pub lt : F → F → Bool
  pub beq : F → F → Bool
  pub zero : F
  pub of_ℕ : ℕ → F
  pub neg : F → F
  pub add : F → F → F
  pub sub : F → F → F
  pub mul : F → F → F
  pub div : F → F → F
  pub sqrt : F → F
  -- `round(x, digits)`
  pub round : F → ℕ → F
  -- `float(text)`, `none` where it raises ValueError
  pub parse : String → Option F
  -- Whether `float(x)` returns; of an int that is too large it raises OverflowError
  pub fits : F → Bool
  pub parse_fits : (text : String) (x : F) → parse text ≡ some x → fits x ≡ true

module _ {F : Type 0} ⦃n : Number F⦄ where
  abbrev pub le : F → F → Bool
  le = n.le

  abbrev pub lt : F → F → Bool
  lt = n.lt

-- The laws of the comparisons.
pub record Order {F : Type 0} (n : Number F) : Type 0 where
  pub le_trans : (a b c : F) → n.le a b ≡ true → n.le b c ≡ true → n.le a c ≡ true
  pub lt_trans : (a b c : F) → n.lt a b ≡ true → n.lt b c ≡ true → n.lt a c ≡ true
  pub le_lt_trans : (a b c : F) → n.le a b ≡ true → n.lt b c ≡ true → n.lt a c ≡ true
  pub le_of_lt : (a b : F) → n.lt a b ≡ true → n.le a b ≡ true
  pub not_le_of_lt : (a b : F) → n.lt a b ≡ true → n.le b a ≡ false
