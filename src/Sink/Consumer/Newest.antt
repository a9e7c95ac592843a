-- ===== src/Sink/Consumer/Newest.antt =====
-- The newest row of a key, and what an upsert of a part of the log does to it.
use radiation_tracking.Prelude.{
  ℕ, zero, suc, ◌+◌, ◌-◌, ◌≤◌, ◌≡◌, refl, sym, ap, ◌∙◌, inl, inr, Bool, true, Option, none, some,
  List, [], ◌∷◌, ◌++◌, length, take, drop, arith, if◌then◌else◌, Bool-cases, Option-cases, ltb,
}
use native.Mathlib.Numerals.{unary_clauses}
use radiation_tracking.Python.{Number, Value, Result}
use radiation_tracking.Sink.Rows.{Row}
use radiation_tracking.Sink.Consumer.Messages.{rows_of, rows_of-append}

module _ {A : Type 0} where
  take-add : (a b : ℕ) (xs : List A) → take (a + b) xs ≡ take a xs ++ take b (drop a xs)
  take-add zero b xs = let e : 0 + b ≡ b = omega arith in rw e refl
  take-add (suc a) zero [] = simp unary_clauses
  take-add (suc a) (suc b) [] = simp unary_clauses
  take-add (suc a) b (x ∷ xs) =
      let e : suc a + b ≡ suc (a + b) = omega arith in rw e (ap (λ l. x ∷ l) (take-add a b xs))

  pub take-length-take : (a : ℕ) (xs : List A) → take (length (take a xs)) xs ≡ take a xs
  take-length-take zero xs = refl
  take-length-take (suc a) [] = refl
  take-length-take (suc a) (x ∷ xs) = ap (λ l. x ∷ l) (take-length-take a xs)

  pub take-all : (xs : List A) → take (length xs) xs ≡ xs
  take-all [] = refl
  take-all (x ∷ xs) = ap (λ l. x ∷ l) (take-all xs)

abbrev pub or_older : {A : Type 0} → Option A → Option A → Option A
or_older none older = older
or_older (some row) older = some row

module _ {F K : Type 0} (same_key : Row F → K → Bool) where
  -- The last of the rows with a key.
  abbrev pub newest : K → List (Row F) → Option (Row F)
  newest k [] = none
  newest k (row ∷ rows) = or_older (newest k rows) (if same_key row k then some row else none)

  pub newest-append :
      (k : K) (xs ys : List (Row F)) → newest k (xs ++ ys) ≡ or_older (newest k ys) (newest k xs)
  newest-append k [] ys = elim (Option-cases (newest k ys)) [
    | inl e ↦ rw e refl
    | inr (r, e) ↦ rw e refl
  ]
  newest-append k (x ∷ xs) ys =
      rw (newest-append k xs ys)
        (elim (Option-cases (newest k ys)) [ inl e ↦ rw e refl | inr (r, e) ↦ rw e refl ])

  newest-none : (k : K) (xs ys : List (Row F)) → newest k (xs ++ ys) ≡ none → newest k xs ≡ none
  newest-none k xs ys h = elim (Option-cases (newest k ys)) [
    | inl e ↦
        let h' : or_older (newest k ys) (newest k xs) ≡ none = sym (newest-append k xs ys) ∙ h in
        rw e at h'
    | inr (r, e) ↦
        let h' : or_older (newest k ys) (newest k xs) ≡ none = sym (newest-append k xs ys) ∙ h in
        absurd (cc (ap (λ o. or_older o (newest k xs)) e))
  ]

  module _ {T : Type 0} ⦃n : Number F⦄ (loads : T → Result (Value F)) (log : List T) where
    -- The newest row of a key among the first messages of the log.
    abbrev pub newest_of_first : ℕ → K → Option (Row F)
    newest_of_first q k = newest k (rows_of loads (take q log))

    -- The row is the newest of its key in some prefix of the log that has no less than the first
    -- `c` messages.
    abbrev pub FromPrefix : ℕ → K → Option (Row F) → Type 0
    FromPrefix c k row = (q : ℕ) × (c ≤ q) × (q ≤ length log) × (row ≡ newest_of_first q k)

    newest_of_first-add :
        (c d : ℕ) (k : K)
        → newest_of_first (c + d) k
          ≡ or_older (newest k (rows_of loads (take d (drop c log)))) (newest_of_first c k)
    newest_of_first-add c d k =
        rw (take-add c d log, rows_of-append loads (take c log) (take d (drop c log)))
          (newest-append k (rows_of loads (take c log)) (rows_of loads (take d (drop c log))))

    unchanged :
        (c d e : ℕ) (k : K)
        → newest k (rows_of loads (take (d + e) (drop c log))) ≡ none
        → newest k (rows_of loads (take d (drop c log))) ≡ none
    unchanged c d e k h =
        let xs = take d (drop c log) in
        let ys = take e (drop d (drop c log)) in
        let h' : newest k (rows_of loads (xs ++ ys)) ≡ none =
          ap (λ l. newest k (rows_of loads l)) (sym (take-add d e (drop c log))) ∙ h in
        newest-none k (rows_of loads xs) (rows_of loads ys)
          (ap (newest k) (sym (rows_of-append loads xs ys)) ∙ h')

    -- An upsert of the messages from `c` on takes each row to a longer prefix.
    pub upsert-FromPrefix :
        (c m : ℕ) (k : K) (row : Option (Row F))
        → c + m ≤ length log
        → FromPrefix c k row
        → FromPrefix (c + m) k (or_older (newest k (rows_of loads (take m (drop c log)))) row)
    upsert-FromPrefix c m k row within (q, above, below, e) =
        elim (Option-cases (newest k (rows_of loads (take m (drop c log))))) [
          | inr (r, hr) ↦ (c + m, omega arith, within, rw (newest_of_first-add c m k, hr) refl)
          | inl hn ↦ elim (Bool-cases (ltb q (c + m))) [
            | inl before ↦ (c + m, omega arith, within, rw hn (e ∙ stale before hn))
            | inr after ↦ (q, ground arith, below, rw hn e)
          ]
        ]
      where
        stale :
            ltb q (c + m) ≡ true
            → newest k (rows_of loads (take m (drop c log))) ≡ none
            → newest_of_first q k ≡ newest_of_first (c + m) k
        stale before hn =
            let d : ℕ = q - c in
            let hq : c + d ≡ q = ground arith in
            let hm : d + (m - d) ≡ m = ground arith in
            let hd : newest k (rows_of loads (take d (drop c log))) ≡ none =
              unchanged c d (m - d) k
                (ap (λ j. newest k (rows_of loads (take j (drop c log)))) hm ∙ hn) in
            ap (λ j. newest_of_first j k) (sym hq)
            ∙ newest_of_first-add c d k
            ∙ ap (λ o. or_older o (newest_of_first c k)) (hd ∙ sym hn)
            ∙ sym (newest_of_first-add c m k)
