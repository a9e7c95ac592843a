-- ===== src/Provider/Reader/Batches.antt =====
-- What the reader yields: the rows that it keeps, sorted batch by batch.
use mathlib.Core.List.{Perm}
use mathlib.Core.List.Perm
use radiation_tracking.Prelude.{
  ℕ, suc, ◌+◌, ◌-◌, ◌<◌, ◌≤◌, max, ◌≡◌, refl, sym, ap, ◌∙◌, subst, String, false, Option, List, [],
  ◌∷◌, ◌++◌, map, length, drop, filter, All, ltb, leb, leb→le, drop-nil, arith, Bool-cases, inl,
  inr, append-nil, append_assoc, length-append,
}
use radiation_tracking.Provider.Rows.{CsvRow}
use radiation_tracking.Provider.Reader.{
  Progress, in_span, filter_row, pick_order_col, sort_batch, read_row, read_rows, stream_file,
}
use radiation_tracking.Provider.Reader.Sorting.{IsSorted, sort_batch-IsSorted, sort_batch-perm}

abbrev pub concat : List (List CsvRow) → List CsvRow
concat [] = []
concat (b ∷ bs) = b ++ concat bs

abbrev pub concat_sorted : String → List (List CsvRow) → List CsvRow
concat_sorted order_col [] = []
concat_sorted order_col (b ∷ bs) = sort_batch order_col b ++ concat_sorted order_col bs

concat_snoc : (bs : List (List CsvRow)) (b : List CsvRow) → concat (bs ++ (b ∷ [])) ≡ concat bs ++ b
concat_snoc [] b = append-nil b
concat_snoc (x ∷ bs) b = rw (concat_snoc bs b) (sym (append_assoc x (concat bs) b))

concat_sorted_snoc :
    (order_col : String) (bs : List (List CsvRow)) (b : List CsvRow)
    → concat_sorted order_col (bs ++ (b ∷ []))
      ≡ concat_sorted order_col bs ++ sort_batch order_col b
concat_sorted_snoc order_col [] b = append-nil (sort_batch order_col b)
concat_sorted_snoc order_col (x ∷ bs) b = rw (concat_sorted_snoc order_col bs b) (
    sym
      (append_assoc (sort_batch order_col x) (concat_sorted order_col bs) (sort_batch order_col b)))

concat_sorted-perm :
    (order_col : String) (bs : List (List CsvRow)) → Perm (concat_sorted order_col bs) (concat bs)
concat_sorted-perm order_col [] = Perm.refl _
concat_sorted-perm order_col (b ∷ bs) =
    Perm.append (sort_batch-perm order_col b) (concat_sorted-perm order_col bs)

All_snoc {κ} :
    {A : Type 0} (P : A → Type κ) (xs : List A) (x : A) → All P xs → P x → All P (xs ++ (x ∷ []))
All_snoc P [] x h k = (k, tt)
All_snoc P (y ∷ xs) x h k = (h.0, All_snoc P xs x h.1 k)

module _ (batch_size skip_rows : ℕ) (start_ts end_ts : Option String)
    (rename : List (String × String)) where
  -- The rows after those that are skipped, renamed, of which captured_at is in the span.
  abbrev pub kept : List CsvRow → List CsvRow
  kept rows = filter (in_span start_ts end_ts) (map (filter_row rename) (drop skip_rows rows))

  abbrev kept_from : ℕ → List CsvRow → List CsvRow
  kept_from skipped rows =
      filter (in_span start_ts end_ts) (map (filter_row rename) (drop (skip_rows - skipped) rows))

  abbrev Holds : Progress → List (List CsvRow) → Type 0
  Holds p bs =
      (p.yielded ≡ concat_sorted (pick_order_col rename) bs)
      × All (λ b. length b ≡ max batch_size 1) bs
      × (length p.batch < max batch_size 1)

  abbrev rows_seen : Progress → List (List CsvRow) → List CsvRow → List CsvRow
  rows_seen p bs rows = (concat bs ++ p.batch) ++ kept_from p.skipped rows

  read_row-Holds :
      (p : Progress) (bs : List (List CsvRow)) (raw : CsvRow) (rows : List CsvRow)
      → Holds p bs
      → let p' = read_row batch_size skip_rows start_ts end_ts rename p raw in
        (bs' : List (List CsvRow)) × Holds p' bs'
        × (rows_seen p' bs' rows ≡ rows_seen p bs (raw ∷ rows))
  unfolding read_row
  read_row-Holds p bs raw rows h =
      let filtered = filter_row rename raw in
      let batch = p.batch ++ (filtered ∷ []) in
      elim (Bool-cases (ltb p.skipped skip_rows)) [
        | inl e ↦
            let drops : skip_rows - p.skipped ≡ suc (skip_rows - (p.skipped + 1)) = ground arith in
            rw (e, drops) (bs, h, refl)
        | inr e ↦
            let drops : skip_rows - p.skipped ≡ 0 = ground arith in
            elim (Bool-cases (in_span start_ts end_ts filtered)) [
              | inr out ↦ rw (e, out, drops) (bs, h, rw out refl)
              | inl within ↦ elim (Bool-cases (leb batch_size (length batch))) [
                | inl full ↦
                    rw (e, within, full, drops)
                      (
                        bs ++ (batch ∷ []),
                        (
                          rw (concat_sorted_snoc (pick_order_col rename) bs batch)
                              (ap (λ l. l ++ sort_batch (pick_order_col rename) batch) h.0),
                          All_snoc (λ b. length b ≡ max batch_size 1) bs batch h.1
                              (exact (longer p.batch filtered) h.2 (leb→le _ _ full)),
                          omega arith,
                        ),
                        rw (concat_snoc bs batch, append-nil (concat bs ++ batch), within)
                            (append_shift (concat bs) p.batch filtered _),
                      )
                | inr room ↦
                    rw (e, within, room, drops)
                      (
                        bs,
                        (h.0, h.1, below _ room),
                        rw within (append_shift (concat bs) p.batch filtered _),
                      )
              ]
            ]
      ]
    where
      longer : (xs : List CsvRow) (x : CsvRow) → length (xs ++ (x ∷ [])) ≡ length xs + 1
      longer xs x = omega (arith, length-append xs (x ∷ []))

      exact : {n m : ℕ} → m ≡ n + 1 → n < max batch_size 1 → batch_size ≤ m → m ≡ max batch_size 1
      exact e h k = omega arith

      below : (m : ℕ) → leb batch_size m ≡ false → suc m ≤ max batch_size 1
      below m h = ground arith

      append_shift :
          (xs ys : List CsvRow) (z : CsvRow) (zs : List CsvRow)
          → (xs ++ (ys ++ (z ∷ []))) ++ zs ≡ (xs ++ ys) ++ (z ∷ zs)
      append_shift xs ys z zs = simp append_assoc

  read_rows-Holds :
      (p : Progress) (bs : List (List CsvRow)) (rows : List CsvRow)
      → Holds p bs
      → let p' = read_rows batch_size skip_rows start_ts end_ts rename p rows in
        (bs' : List (List CsvRow)) × Holds p' bs' × (concat bs' ++ p'.batch ≡ rows_seen p bs rows)
  unfolding read_rows
  read_rows-Holds p bs [] h = (
    bs,
    h,
    rw (drop-nil {A = CsvRow} (skip_rows - p.skipped)) (sym (append-nil (concat bs ++ p.batch))),
  )
  read_rows-Holds p bs (raw ∷ rows) h =
      let (bs', h', e) = read_row-Holds p bs raw rows h in
      let (bs'', h'', e') =
        read_rows-Holds (read_row batch_size skip_rows start_ts end_ts rename p raw) bs' rows h' in
      (bs'', h'', e' ∙ e)

  -- The rows that the reader keeps are yielded in batches of batch_size rows, with a last one that is
  -- shorter and may be empty: each batch sorted by the order column, the rows without one last, and
  -- the batches in the order of the file.
  pub stream_file_lem :
      (rows : List CsvRow)
      → let order_col = pick_order_col rename in
        let stream = stream_file batch_size skip_rows start_ts end_ts rename rows in
        (bs : List (List CsvRow)) × (last : List CsvRow) × (concat bs ++ last ≡ kept rows)
        × All (λ b. length b ≡ max batch_size 1) bs
        × (length last < max batch_size 1)
        × (stream ≡ concat_sorted order_col bs ++ sort_batch order_col last)
        × All (λ b. IsSorted order_col (sort_batch order_col b)) (bs ++ (last ∷ []))
        × Perm stream (kept rows)
  unfolding stream_file
  stream_file_lem rows =
      let order_col = pick_order_col rename in
      let p =
        read_rows batch_size skip_rows start_ts end_ts rename
          (record { skipped = 0; batch = []; yielded = [] }) rows in
      let (bs, h, e) =
        read_rows-Holds (record { skipped = 0; batch = []; yielded = [] }) [] rows
          (refl, tt, omega arith) in
      let stream : p.yielded ++ sort_batch order_col p.batch
          ≡ concat_sorted order_col bs ++ sort_batch order_col p.batch =
        ap (λ l. l ++ sort_batch order_col p.batch) h.0 in
      let all_kept : concat bs ++ p.batch ≡ kept rows = e ∙ unskipped in
      (
        bs,
        p.batch,
        all_kept,
        h.1,
        h.2,
        stream,
        sorted (bs ++ (p.batch ∷ [])),
        subst (λ l. Perm (p.yielded ++ sort_batch order_col p.batch) l) all_kept
            (subst (λ l. Perm l (concat bs ++ p.batch)) (sym stream)
              (Perm.append (concat_sorted-perm order_col bs) (sort_batch-perm order_col p.batch))),
      )
    where
      unskipped : kept_from 0 rows ≡ kept rows
      unskipped = let none_yet : skip_rows - 0 ≡ skip_rows = omega arith in rw none_yet refl

      sorted :
          (bs : List (List CsvRow))
          → All (λ b. IsSorted (pick_order_col rename) (sort_batch (pick_order_col rename) b)) bs
      sorted [] = tt
      sorted (b ∷ bs) = (sort_batch-IsSorted (pick_order_col rename) b, sorted bs)
