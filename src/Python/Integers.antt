-- ===== src/Python/Integers.antt =====
-- Numbers for concrete runs: integers, with a division that rounds down and no fractional digits.
use Prim.Native.Nat.{◌/◌, ◌*◌}
use radiation_tracking.Prelude.{
  ℕ, suc, ◌+◌, ◌≡◌, refl, ◌↔◌, Bool, true, false, none, arith, leb, ◌==◌, if◌then◌else◌, ◌&&◌, zero,
}
use radiation_tracking.Prelude.Int.{ℤ, pos, negsuc, pos_part, neg_part, sub_ℕ, leb_ℤ, ltb_ℤ}
use radiation_tracking.Python.{Number, Order}

abbrev pub beq_ℤ : ℤ → ℤ → Bool
beq_ℤ a b = pos_part a == pos_part b && neg_part a == neg_part b

pub beq_ℤ_iff : (a b : ℤ) → (beq_ℤ a b ≡ true) ↔ (a ≡ b)
beq_ℤ_iff a b = ground arith

abbrev pub add_ℤ : ℤ → ℤ → ℤ
add_ℤ a b = sub_ℕ (pos_part a + pos_part b) (neg_part a + neg_part b)

abbrev pub neg_ℤ : ℤ → ℤ
neg_ℤ a = sub_ℕ (neg_part a) (pos_part a)

abbrev pub mul_ℤ : ℤ → ℤ → ℤ
mul_ℤ a b =
    sub_ℕ (pos_part a * pos_part b + neg_part a * neg_part b)
      (pos_part a * neg_part b + neg_part a * pos_part b)

-- By a positive divisor, rounded down.
abbrev pub div_ℤ : ℤ → ℤ → ℤ
div_ℤ (pos a) b = pos (a / pos_part b)
div_ℤ (negsuc a) b = negsuc (a / pos_part b)

-- The largest root that is at most the number, sought from `k` down.
abbrev root_from : ℕ → ℕ → ℕ
root_from zero a = 0
root_from (suc k) a = let lower = root_from k a in if leb (suc k * suc k) a then suc k else lower

instance abbrev pub integers : Number ℤ
integers = record {
  le = leb_ℤ;
  lt = ltb_ℤ;
  beq = beq_ℤ;
  zero = pos 0;
  of_ℕ = λ n. pos n;
  neg = neg_ℤ;
  add = add_ℤ;
  sub = λ a b. add_ℤ a (neg_ℤ b);
  mul = mul_ℤ;
  div = div_ℤ;
  sqrt = λ a. pos (root_from (pos_part a) (pos_part a));
  round = λ a digits. a;
  parse = λ text. none;
  fits = λ x. true;
  parse_fits = λ text x h. refl;
}

module _ (a b c : ℤ) where
  le_trans_ℤ : leb_ℤ a b ≡ true → leb_ℤ b c ≡ true → leb_ℤ a c ≡ true
  le_trans_ℤ h k = ground arith

  lt_trans_ℤ : ltb_ℤ a b ≡ true → ltb_ℤ b c ≡ true → ltb_ℤ a c ≡ true
  lt_trans_ℤ h k = ground arith

  le_lt_trans_ℤ : leb_ℤ a b ≡ true → ltb_ℤ b c ≡ true → ltb_ℤ a c ≡ true
  le_lt_trans_ℤ h k = ground arith

module _ (a b : ℤ) where
  le_of_lt_ℤ : ltb_ℤ a b ≡ true → leb_ℤ a b ≡ true
  le_of_lt_ℤ h = ground arith

  not_le_of_lt_ℤ : ltb_ℤ a b ≡ true → leb_ℤ b a ≡ false
  not_le_of_lt_ℤ h = ground arith

pub integers-Order : Order integers
integers-Order = record {
  le_trans = le_trans_ℤ;
  lt_trans = lt_trans_ℤ;
  le_lt_trans = le_lt_trans_ℤ;
  le_of_lt = le_of_lt_ℤ;
  not_le_of_lt = not_le_of_lt_ℤ;
}
