-- ===== src/Sink/Consumer/Stuck.antt =====
-- A batch in which one key occurs twice: Postgres refuses `ON CONFLICT DO UPDATE` on one row twice in
-- one statement.
use radiation_tracking.Prelude.{
  ℕ, zero, suc, ◌+◌, ◌-◌, ◌≤◌, min, ◌≡◌, refl, sym, ap, ◌∙◌, Bool, true, false, List, [], ◌∷◌, ◌++◌,
  length, take, drop, All, arith, append_assoc, length-take, length-append,
}
use radiation_tracking.Python.{Number, Value, Exception, Result, ok, raise}
use radiation_tracking.Sink.Rows.{Row}
use radiation_tracking.Sink.Consumer.{
  Sink, BatchEvent, batch, killed_before_commit, killed_before_upsert, upsert_batch, write_batch,
  poll, step, run, no_values,
}
use radiation_tracking.Sink.Consumer.Messages.{
  Loads, row_if, row_of, rows_of, rows_of-append, decode-build_rows,
}

module _ {A : Type 0} where
  take-append_past :
      (xs ys : List A) (m : ℕ) → length xs ≤ m → take m (xs ++ ys) ≡ xs ++ take (m - length xs) ys
  take-append_past [] ys m h = let e : m - 0 ≡ m = omega arith in rw e refl
  take-append_past (x ∷ xs) ys (suc m) h =
      let e : suc m - suc (length xs) ≡ m - length xs = omega arith in
      rw e (ap (λ l. x ∷ l) (take-append_past xs ys m (omega arith)))
  take-append_past (x ∷ xs) ys zero h = absurd (omega arith)

  no_values-append : (xs : List A) (y : A) (ys : List A) → no_values (xs ++ (y ∷ ys)) ≡ false
  no_values-append [] y ys = refl
  no_values-append (x ∷ xs) y ys = refl

stays :
    {DB : Type 0} (w : Sink DB) → w.position ≡ w.committed → record w { position = w.committed } ≡ w
stays w h = ground arith

module _ {F K T DB : Type 0} ⦃n : Number F⦄ (loads : T → Result (Value F))
    (execute_values : DB → List (Row F) → Result DB) (same_key : Row F → K → Bool) where
  -- One page of `execute_values` is one statement, with 100 rows at most, which fails where two of
  -- its rows have one key.
  abbrev pub RefusesRepeats : Type 0
  RefusesRepeats =
      (table : DB) (k : K) (xs ys zs : List (Row F)) (a b : Row F)
      → same_key a k ≡ true
      → same_key b k ≡ true
      → length (xs ++ (a ∷ (ys ++ (b ∷ zs)))) ≤ 100
      → (e : Exception) × (execute_values table (xs ++ (a ∷ (ys ++ (b ∷ zs)))) ≡ raise e)

  length-row_if-le : (r : Result (Row F)) → length (row_if loads r) ≤ 1
  length-row_if-le (ok row) = omega arith
  length-row_if-le (raise e) = omega arith

  length-row_of-le : (r : Result (Value F)) → length (row_of loads r) ≤ 1
  length-row_of-le (ok v) = length-row_if-le _
  length-row_of-le (raise e) = omega arith

  length-rows_of-le : (values : List T) → length (rows_of loads values) ≤ length values
  length-rows_of-le [] = omega arith
  length-rows_of-le (x ∷ xs) = omega (
    arith,
    length-append (row_of loads (loads x)) (rows_of loads xs),
    length-row_of-le (loads x),
    length-rows_of-le xs,
  )

  upsert_batch-raise :
      (table : DB) (xs : List (Row F)) (row : Row F) (ys : List (Row F)) (e : Exception)
      → execute_values table (xs ++ (row ∷ ys)) ≡ raise e
      → upsert_batch loads execute_values table (xs ++ (row ∷ ys)) ≡ raise e
  unfolding upsert_batch
  upsert_batch-raise table [] row ys e h = rw h refl
  upsert_batch-raise table (x ∷ xs) row ys e h = rw h refl

  module _ (loaded : Loads loads) (refuses : RefusesRepeats) (batch_size : ℕ) (k : K)
      (before between after : List T) (x y : T) (a b : Row F) (hx : row_of loads (loads x) ≡ a ∷ [])
      (hy : row_of loads (loads y) ≡ b ∷ []) (ha : same_key a k ≡ true)
      (hb : same_key b k ≡ true) where
    abbrev pair : List T → List T
    pair rest = before ++ (x ∷ (between ++ (y ∷ rest)))

    rows_of-pair :
        (rest : List T)
        → rows_of loads (pair rest)
          ≡ rows_of loads before ++ (a ∷ (rows_of loads between ++ (b ∷ rows_of loads rest)))
    rows_of-pair rest = simp (rows_of-append, hx, hy)

    -- A poll that returns both messages.
    abbrev Covers : ℕ → Type 0
    Covers available =
        (length before + length between + 2 ≤ min available batch_size)
        × (min available batch_size ≤ 100)

    abbrev pub CoversEvent : BatchEvent → Type 0
    CoversEvent (batch available) = Covers available
    CoversEvent (killed_before_commit available) = Covers available
    CoversEvent killed_before_upsert = Unit

    write-pair :
        (table : DB) (rest : List T)
        → length (pair rest) ≤ 100
        → (e : Exception) × (write_batch loads execute_values table (pair rest) ≡ raise e)
    unfolding write_batch
    write-pair table rest short =
        let (records, hd, hb') = decode-build_rows loads loaded (pair rest) in
        let fewer : length
              (rows_of loads before ++ (a ∷ (rows_of loads between ++ (b ∷ rows_of loads rest))))
            ≤ 100 =
          omega (arith, ap length (rows_of-pair rest), length-rows_of-le (pair rest)) in
        let (e, refused) =
          refuses table k (rows_of loads before) (rows_of loads between) (rows_of loads rest) a b ha
            hb fewer in
        (
          e,
          rw (hd, hb', rows_of-pair rest)
              (upsert_batch-raise table (rows_of loads before) a
                (rows_of loads between ++ (b ∷ rows_of loads rest)) e refused),
        )

    take-pair :
        (m : ℕ)
        → length before + length between + 2 ≤ m
        → take m (pair after) ≡ pair (take (m - (length before + length between + 2)) after)
    take-pair m h =
        let xs = before ++ (x ∷ (between ++ (y ∷ []))) in
        let len : length xs ≡ length before + length between + 2 = omega (
          arith,
          length-append before (x ∷ (between ++ (y ∷ []))),
          length-append between (y ∷ []),
        ) in
        let e : (rest : List T) → pair rest ≡ xs ++ rest = λ rest. simp append_assoc in
        rw (e after, e (take (m - (length before + length between + 2)) after), ← len)
          (take-append_past xs after m (rw len h))

    module _ (log : List T) where
      -- The process stands before the two messages.
      abbrev pub Stands : Sink DB → Type 0
      Stands w = (w.position ≡ w.committed) × (drop w.committed log ≡ pair after)

      refused :
          (available : ℕ) (w : Sink DB)
          → Stands w
          → Covers available
          → (e : Exception) × (write_batch loads execute_values w.table
                (poll batch_size log available w)
              ≡ raise e)
            × (no_values (poll batch_size log available w) ≡ false)
      unfolding poll
      refused available w h covers =
          let m = min available batch_size in
          let rest = take (m - (length before + length between + 2)) after in
          let at : drop w.position log ≡ pair after = ap (λ p. drop p log) h.0 ∙ h.1 in
          let e : take m (drop w.position log) ≡ pair rest =
            ap (take m) at ∙ take-pair m covers.0 in
          let short : length (pair rest) ≤ 100 =
            omega (arith, ap length (sym e), length-take m (drop w.position log), covers.1) in
          let (error, refusal) = write-pair w.table rest short in
          (error, rw e refusal, rw e (no_values-append before x _))

      step_stuck :
          (w : Sink DB) (e : BatchEvent)
          → Stands w
          → CoversEvent e
          → step loads execute_values batch_size log w e ≡ w
      unfolding step
      step_stuck w (batch available) h covers =
          let (e, refusal, some_left) = refused available w h covers in
          rw (some_left, refusal) (stays w h.0)
      step_stuck w (killed_before_commit available) h covers =
          let (e, refusal, some_left) = refused available w h covers in rw refusal (stays w h.0)
      step_stuck w killed_before_upsert h covers = stays w h.0

      -- If a statement of at most 100 rows fails where two of them have one key, and json.loads raises
      -- only JSONDecodeError and TypeError: where two well-formed messages after the committed offset
      -- have one key, and each poll returns both and no more than 100 messages, nothing is written and
      -- no offset is committed, however often the process is started again.
      pub run_stuck :
          (events : List BatchEvent) (w : Sink DB)
          → Stands w
          → All CoversEvent events
          → run loads execute_values batch_size log events w ≡ w
      unfolding run
      run_stuck [] w h covers = refl
      run_stuck (e ∷ events) w h covers =
          rw (step_stuck w e h covers.0) (run_stuck events w h covers.1)
