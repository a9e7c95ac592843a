-- ===== src/Prelude/Attempts.antt =====
-- What a bounded retry loop finds: the first attempt that succeeds.
use Prim.Native.Nat.{ℕ, suc, ◌+◌, ◌≤◌, ◌<◌}
use mathlib.Core.Path.{◌≡◌, subst, sym}
use mathlib.Core.Logic.{inl, inr}
use radiation_tracking.Prelude.Tests.{Bool-cases, ◌==◌}
use native.Mathlib.Omega.{arith}
use mathlib.Core.Bool.{Bool, true, false}
use mathlib.Core.Option.{Option, none, some}

-- Of the `count` attempts from `first` on, `up` says which succeed.
abbrev pub FirstUp : (ℕ → Bool) → ℕ → ℕ → Option ℕ → Type 0
FirstUp up first count none = (a : ℕ) → first ≤ a → a < first + count → up a ≡ false
FirstUp up first count (some a) =
    (first ≤ a) × (a < first + count) × (up a ≡ true) × ((b : ℕ) → first ≤ b → b < a → up b ≡ false)

module _ (up : ℕ → Bool) (first count : ℕ) where
  pub FirstUp-here : up first ≡ true → FirstUp up first (suc count) (some first)
  FirstUp-here e = (omega arith, omega arith, e, λ b above below. absurd (omega arith))

  later_fails :
      up first ≡ false → (b : ℕ) → first ≤ b → (first + 1 ≤ b → up b ≡ false) → up b ≡ false
  later_fails e b above rest = elim (Bool-cases (b == first)) [
    | inl same ↦ let h : b ≡ first = ground arith in subst (λ c. up c ≡ false) (sym h) e
    | inr other ↦ rest (ground arith)
  ]

  pub FirstUp-later :
      (r : Option ℕ)
      → up first ≡ false
      → FirstUp up (first + 1) count r
      → FirstUp up first (suc count) r
  FirstUp-later none e h =
      λ b above below. later_fails e b above (λ further. h b further (omega arith))
  FirstUp-later (some a) e h = (
    omega arith,
    omega arith,
    h.2,
    λ b above below. later_fails e b above (λ further. h.3 b further below),
  )
