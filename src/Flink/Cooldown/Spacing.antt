-- ===== src/Flink/Cooldown/Spacing.antt =====
-- flink-jobs/operators/alert_dedup.py: which candidates are emitted, by the ends of their windows.
use radiation_tracking.Prelude.{
  ℕ, ◌≤◌, ◌≡◌, refl, subst, Bool, true, false, Option, none, some, List, [], ◌∷◌, All, All-imp,
  Sublistᴰ, arith, if◌then◌else◌, Bool-cases, inl, inr,
}
use radiation_tracking.Prelude.Int.{ℤ, ◌-ℤ◌}
use radiation_tracking.Python.{ok, traverse, Each, traverse-Each, Each-traverse, Datetime, Fields}
use radiation_tracking.Flink.Cooldown.{
  alert_window_end_millis, is_within_cooldown, is_suppressed, process_element, run,
}

module _ (cooldown_seconds : ℕ) where
  -- The ends that the cooldown lets through.
  abbrev chosen : Option ℤ → List ℤ → List ℤ
  chosen last [] = []
  chosen last (e ∷ ends) =
      let kept = chosen last ends in
      let more = chosen (some e) ends in
      if is_suppressed cooldown_seconds last e then kept else e ∷ more

  -- Each end in the list is at least a cooldown after each before it.
  abbrev pub Spaced : List ℤ → Type 0
  Spaced [] = Unit
  Spaced (e ∷ ends) =
      All (λ later. is_within_cooldown e later cooldown_seconds ≡ false) ends × Spaced ends

  -- Some end in the list is less than a cooldown before `e`, or after it.
  abbrev pub covered : List ℤ → ℤ → Bool
  covered [] e = false
  covered (l ∷ ends) e =
      let more = covered ends e in if is_within_cooldown l e cooldown_seconds then true else more

  gap_trans :
      (a b c : ℤ)
      → is_within_cooldown a b cooldown_seconds ≡ false
      → is_within_cooldown b c cooldown_seconds ≡ false
      → is_within_cooldown a c cooldown_seconds ≡ false
  unfolding is_within_cooldown ◌-ℤ◌
  gap_trans a b c h k = ground arith

  chosen-gap :
      (l : ℤ) (ends : List ℤ)
      → All (λ later. is_within_cooldown l later cooldown_seconds ≡ false) (chosen (some l) ends)
  unfolding is_suppressed
  chosen-gap l [] = tt
  chosen-gap l (e ∷ ends) = elim (Bool-cases (is_within_cooldown l e cooldown_seconds)) [
    | inl h ↦ rw h (chosen-gap l ends)
    | inr h ↦
        rw h (h, All-imp (λ c k. gap_trans l e c h k) (chosen (some e) ends) (chosen-gap e ends))
  ]

  chosen-Spaced : (last : Option ℤ) (ends : List ℤ) → Spaced (chosen last ends)
  chosen-Spaced last [] = tt
  chosen-Spaced last (e ∷ ends) = elim (Bool-cases (is_suppressed cooldown_seconds last e)) [
    | inl h ↦ rw h (chosen-Spaced last ends)
    | inr h ↦ rw h (chosen-gap e ends, chosen-Spaced (some e) ends)
  ]

  abbrev since : Option ℤ → List ℤ → List ℤ
  since none ends = ends
  since (some l) ends = l ∷ ends

  within_refl : (e : ℤ) → 1 ≤ cooldown_seconds → is_within_cooldown e e cooldown_seconds ≡ true
  unfolding is_within_cooldown ◌-ℤ◌
  within_refl e h = ground arith

  covered-since :
      (last : Option ℤ) (ends : List ℤ) (e : ℤ)
      → covered ends e ≡ true
      → covered (since last ends) e ≡ true
  covered-since none ends e h = h
  covered-since (some l) ends e h = ground arith

  suppressed-covered :
      (last : Option ℤ) (ends : List ℤ) (e : ℤ)
      → is_suppressed cooldown_seconds last e ≡ true
      → covered (since last ends) e ≡ true
  unfolding is_suppressed
  suppressed-covered last ends e h = ground arith

  abbrev Covers : Option ℤ → List ℤ → List ℤ → Type 0
  Covers last ends kept = All (λ e. covered (since last kept) e ≡ true) ends

  chosen-Covers :
      (last : Option ℤ) (ends : List ℤ) → 1 ≤ cooldown_seconds → Covers last ends (chosen last ends)
  chosen-Covers last [] one = tt
  chosen-Covers last (e ∷ ends) one = elim (Bool-cases (is_suppressed cooldown_seconds last e)) [
    | inl h ↦
        subst (Covers last (e ∷ ends)) {y = chosen last (e ∷ ends)} (rw h refl)
          (suppressed-covered last (chosen last ends) e h, chosen-Covers last ends one)
    | inr h ↦
        let kept = e ∷ chosen (some e) ends in
        subst (Covers last (e ∷ ends)) {y = chosen last (e ∷ ends)} (rw h refl) (
          covered-since last kept e (rw (within_refl e one) refl),
          All-imp (λ c k. covered-since last kept c k) ends (chosen-Covers (some e) ends one),
        )
  ]

module _ {F D : Type 0} (t : Datetime D) (cooldown_seconds : ℕ) where
  -- What the operator yields, with the ends of its windows.
  pub record Emission (last : Option ℤ) (alerts : List (Fields F)) (ends : List ℤ) : Type 0 where
    pub emitted : List (Fields F)
    pub yields : run t cooldown_seconds last alerts ≡ ok emitted
    pub dated : Each (alert_window_end_millis t) emitted (chosen cooldown_seconds last ends)
    pub among : Sublistᴰ emitted alerts

  emission :
      (last : Option ℤ) (alerts : List (Fields F)) (ends : List ℤ)
      → Each (alert_window_end_millis t) alerts ends
      → Emission last alerts ends
  unfolding run process_element
  emission last [] [] h = record { emitted = []; yields = refl; dated = tt; among = Sublistᴰ.slnil }
  emission last [] (e ∷ ends) h = absurd h
  emission last (alert ∷ alerts) [] h = absurd h
  emission last (alert ∷ alerts) (e ∷ ends) h =
      let kept = emission last alerts ends h.1 in
      let more = emission (some e) alerts ends h.1 in
      elim (Bool-cases (is_suppressed cooldown_seconds last e)) [
        | inl s ↦ record {
          emitted = kept.emitted;
          yields = rw (h.0, s, kept.yields) refl;
          dated = rw s kept.dated;
          among = Sublistᴰ.cons kept.among;
        }
        | inr s ↦ record {
          emitted = alert ∷ more.emitted;
          yields = rw (h.0, s, more.yields) refl;
          dated = rw s (h.0, more.dated);
          among = Sublistᴰ.cons-cons refl more.among;
        }
      ]

  -- Of candidates whose window ends all parse, with a cooldown of a second or more, the operator
  -- yields some, in their order, such that each one's window ends at least a cooldown after the
  -- window of each one before it, and each candidate's window ends less than a cooldown after the
  -- window of some yielded alert, or before it.
  pub run-Spaced :
      (alerts : List (Fields F)) (ends : List ℤ)
      → traverse (alert_window_end_millis t) alerts ≡ ok ends
      → 1 ≤ cooldown_seconds
      → (emitted : List (Fields F)) × (emitted_ends : List ℤ) × (run t cooldown_seconds none alerts
          ≡ ok emitted)
        × Sublistᴰ emitted alerts
        × (traverse (alert_window_end_millis t) emitted ≡ ok emitted_ends)
        × Spaced cooldown_seconds emitted_ends
        × All (λ e. covered cooldown_seconds emitted_ends e ≡ true) ends
  run-Spaced alerts ends h one =
      let out =
        emission none alerts ends (traverse-Each (alert_window_end_millis t) alerts ends h) in
      let final = chosen cooldown_seconds none ends in
      (
        out.emitted,
        final,
        out.yields,
        out.among,
        Each-traverse (alert_window_end_millis t) out.emitted final out.dated,
        chosen-Spaced cooldown_seconds none ends,
        chosen-Covers cooldown_seconds none ends one,
      )
