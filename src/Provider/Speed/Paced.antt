-- ===== src/Provider/Speed/Paced.antt =====
-- What an accepted --speed makes of the sleeps between events.
use radiation_tracking.Prelude.{
  ◌≡◌, refl, String, Bool, true, false, Option, none, some, arith, str_eq, if◌then◌else◌,
  Bool-cases, inl, inr,
}
use radiation_tracking.Python.{
  Number, Order, Result, ok, or_raise, value_error, ◌>>=◌, Result-cases,
}
use radiation_tracking.Python.Text.{strip}
use radiation_tracking.Provider.Speed.{
  Speed, rate, multiplier, unthrottled, ends_with_x, without_last, positive, parse_speed, gap_sleep,
  apply_speed, capped_delay, divide,
}

module _ {F : Type 0} (n : Number F) where
  -- A sleep, if there is one, is positive and lasts five seconds at most.
  abbrev pub IsShort : Option F → Type 0
  IsShort none = Unit
  IsShort (some delay) = (n.lt n.zero delay ≡ true) × (n.lt (n.of_ℕ 5) delay ≡ false)

  module _ (lower : String → String) (is_finite : F → Bool) where
    -- The number of the speed is positive and finite; there is no sleep in the unthrottled mode, and
    -- one of 1/N seconds, or a short one, in the others.
    abbrev pub IsPaced : Speed F → Result (Option F) → Type 0
    IsPaced unthrottled slept = slept ≡ ok none
    IsPaced (rate num) slept =
        (is_finite num ≡ true)
        × (n.le num n.zero ≡ false)
        × (slept ≡ ok (some (n.div (n.of_ℕ 1) num)))
    IsPaced (multiplier num) slept =
        (is_finite num ≡ true)
        × (n.le num n.zero ≡ false)
        × ((sleep : Option F) × (slept ≡ ok sleep) × IsShort sleep)

    abbrev IsPositive : Speed F → Type 0
    IsPositive unthrottled = Unit
    IsPositive (rate num) = (is_finite num ≡ true) × (n.le num n.zero ≡ false)
    IsPositive (multiplier num) = (is_finite num ≡ true) × (n.le num n.zero ≡ false)

    positive_lem :
        (num checked : F)
        → positive ⦃n = n⦄ lower is_finite num ≡ ok checked
        → (is_finite checked ≡ true) × (n.le checked n.zero ≡ false)
    unfolding positive
    positive_lem num checked h = elim (Bool-cases (is_finite num)) [
      | inr e ↦ absurd (ground arith)
      | inl e ↦ elim (Bool-cases (n.le num n.zero)) [
        | inl e' ↦ absurd (ground arith)
        | inr e' ↦ let same : num ≡ checked = ground arith in rw (← same) (e, e')
      ]
    ]

    read_number :
        (make : F → Speed F) (parsed : Option F) (speed : Speed F)
        → (or_raise value_error parsed >>= λ num.
            positive ⦃n = n⦄ lower is_finite num >>= λ num. ok (make num))
          ≡ ok speed
        → (num : F) × (make num ≡ speed) × (is_finite num ≡ true) × (n.le num n.zero ≡ false)
    unfolding or_raise
    read_number make none speed h = absurd (ground arith)
    read_number make (some x) speed h = elim (Result-cases (positive ⦃n = n⦄ lower is_finite x)) [
      | inr (e, p) ↦ absurd (ground arith)
      | inl (num, p) ↦
          let (finite, above) = positive_lem x num p in
          let same : make num ≡ speed = ground arith in (num, same, finite, above)
    ]

    module _ (order : Order n) where
      below_five :
          (scaled : F)
          → n.lt (n.of_ℕ 5) (if n.lt (n.of_ℕ 5) scaled then n.of_ℕ 5 else scaled) ≡ false
      below_five scaled = elim (Bool-cases (n.lt (n.of_ℕ 5) scaled)) [
        | inl e ↦ rw e (irreflexive (n.of_ℕ 5))
        | inr e ↦ rw e e
      ]
        where
          irreflexive : (x : F) → n.lt x x ≡ false
          irreflexive x = ground (arith, order.le_of_lt x x, order.not_le_of_lt x x)

      capped_delay-IsShort : (scaled : F) → IsShort (capped_delay ⦃n = n⦄ scaled)
      capped_delay-IsShort scaled =
          let delay = if n.lt (n.of_ℕ 5) scaled then n.of_ℕ 5 else scaled in
          elim (Bool-cases (n.lt n.zero delay)) [
            | inl e ↦ rw e (e, below_five scaled)
            | inr e ↦ rw e tt
          ]

      gap_sleep-IsShort :
          (value : F) (current prev : Option F)
          → n.le value n.zero ≡ false
          → (sleep : Option F) × (gap_sleep ⦃n = n⦄ value current prev ≡ ok sleep) × IsShort sleep
      unfolding gap_sleep divide
      gap_sleep-IsShort value (some current) (some prev) above =
          elim (Bool-cases (n.lt n.zero (n.sub current prev))) [
            | inr e ↦ (none, rw e refl, tt)
            | inl e ↦ (
              capped_delay ⦃n = n⦄ (n.div (n.sub current prev) value),
              rw (e, above) refl,
              capped_delay-IsShort (n.div (n.sub current prev) value),
            )
          ]
      gap_sleep-IsShort value none prev above = (none, refl, tt)
      gap_sleep-IsShort value (some current) none above = (none, refl, tt)

      apply_speed-IsPaced :
          (speed : Speed F) (current prev : Option F)
          → IsPositive speed
          → IsPaced speed (apply_speed ⦃n = n⦄ speed current prev)
      unfolding apply_speed divide
      apply_speed-IsPaced unthrottled current prev h = refl
      apply_speed-IsPaced (rate num) current prev h = (h.0, h.1, rw h.1 refl)
      apply_speed-IsPaced (multiplier num) current prev h =
          (h.0, h.1, gap_sleep-IsShort num current prev h.1)

      parse_speed-IsPositive :
          (value : String) (speed : Speed F)
          → parse_speed ⦃n = n⦄ lower is_finite value ≡ ok speed
          → IsPositive speed
      unfolding parse_speed
      parse_speed-IsPositive value speed h =
          elim (Bool-cases (str_eq (lower (strip value)) "max")) [
            | inl e ↦ let same : unthrottled ≡ speed = ground arith in rw (← same) tt
            | inr e ↦ elim (Bool-cases (ends_with_x (lower (strip value)))) [
              | inl e' ↦
                  let (num, same, finite, above) =
                    read_number multiplier (n.parse (without_last (strip value))) speed
                      (rw (e, e') at h) in
                  rw (← same) (finite, above)
              | inr e' ↦
                  let (num, same, finite, above) =
                    read_number rate (n.parse (strip value)) speed (rw (e, e') at h) in
                  rw (← same) (finite, above)
            ]
          ]

      -- With an accepted --speed the number N of a rate or a multiplier is finite and positive, so that
      -- nothing is divided by zero; between two events the producer does not sleep in the unthrottled
      -- mode, sleeps 1/N seconds at a rate, and at a multiplier sleeps for more than zero and at most
      -- five seconds, or not at all.
      pub parse_speed-IsPaced :
          (value : String) (speed : Speed F) (current prev : Option F)
          → parse_speed ⦃n = n⦄ lower is_finite value ≡ ok speed
          → IsPaced speed (apply_speed ⦃n = n⦄ speed current prev)
      parse_speed-IsPaced value speed current prev h =
          apply_speed-IsPaced speed current prev (parse_speed-IsPositive value speed h)
