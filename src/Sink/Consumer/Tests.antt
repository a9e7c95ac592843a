-- ===== src/Sink/Consumer/Tests.antt =====
-- Runs of the sink.
use radiation_tracking.Prelude.{
  zero, suc, String, ◌≡◌, refl, sym, ◌∙◌, inl, inr, Bool, true, false, ◌||◌, Option, List, [], ◌∷◌,
  ◌++◌, length, take, drop, arith, str_eq, if◌then◌else◌, Bool-cases, eq_iff, ap,
}
use radiation_tracking.Prelude.Int.{ℤ, pos}
use radiation_tracking.Python.{
  Value, str, num, obj, end, field, Result, ok, raise, value_error, get, Fields, truthy,
}
use radiation_tracking.Python.Integers.{integers}
use radiation_tracking.Sink.Rows.{Row, record_to_row, row_from, decode, build_rows}
use radiation_tracking.Sink.Consumer.{
  BatchEvent, batch, killed_before_commit, killed_before_upsert, run,
}
use radiation_tracking.Sink.Consumer.Newest.{newest, newest-append, FromPrefix}
use radiation_tracking.Sink.Consumer.Messages.{Loads, rows_of, row_of, row_if}
use radiation_tracking.Sink.Consumer.Once.{Upserts, run-newest, start}
use radiation_tracking.Sink.Consumer.Progress.{Succeeds, run-all}
use radiation_tracking.Sink.Consumer.Stuck.{RefusesRepeats, run_stuck}

abbrev text_of : Value ℤ → String
text_of (str s) = s
text_of _ = ""

abbrev key : Row ℤ → String
key row = text_of row.geohash

abbrev same_key : Row ℤ → String → Bool
same_key row k = str_eq (key row) k

-- A table as all the rows written, of which the last with a key counts.
abbrev find_row : List (Row ℤ) → String → Option (Row ℤ)
find_row table k = newest same_key k table

abbrev has_key : List (Row ℤ) → String → Bool
has_key [] k = false
has_key (row ∷ rows) k = same_key row k || has_key rows k

abbrev repeats : List (Row ℤ) → Bool
repeats [] = false
repeats (row ∷ rows) = has_key rows (key row) || repeats rows

abbrev write_rows : List (Row ℤ) → List (Row ℤ) → Result (List (Row ℤ))
write_rows table rows = if repeats rows then raise value_error else ok (table ++ rows)

abbrev loads : Value ℤ → Result (Value ℤ)
loads v = ok v

write_rows-Upserts : Upserts loads write_rows same_key find_row
write_rows-Upserts table table' rows k h = elim (Bool-cases (repeats rows)) [
  | inl e ↦ absurd (ground arith)
  | inr e ↦
      let same : table ++ rows ≡ table' = ground arith in
      ap (newest same_key k) (sym same) ∙ newest-append same_key k table rows
]

has_key-middle :
    (ys : List (Row ℤ)) (b : Row ℤ) (zs : List (Row ℤ)) (k : String)
    → same_key b k ≡ true
    → has_key (ys ++ (b ∷ zs)) k ≡ true
has_key-middle [] b zs k h = ground arith
has_key-middle (y ∷ ys) b zs k h = ground (arith, has_key-middle ys b zs k h)

repeats-middle :
    (xs ys zs : List (Row ℤ)) (a b : Row ℤ) (k : String)
    → same_key a k ≡ true
    → same_key b k ≡ true
    → repeats (xs ++ (a ∷ (ys ++ (b ∷ zs)))) ≡ true
repeats-middle [] ys zs a b k ha hb =
    let e : key a ≡ k = (eq_iff (key a) k).0 ha in
    let found : has_key (ys ++ (b ∷ zs)) (key a) ≡ true = rw e (has_key-middle ys b zs k hb) in
    ground arith
repeats-middle (x ∷ xs) ys zs a b k ha hb = ground (arith, repeats-middle xs ys zs a b k ha hb)

write_rows-RefusesRepeats : RefusesRepeats loads write_rows same_key
write_rows-RefusesRepeats table k xs ys zs a b ha hb short =
    (value_error, rw (repeats-middle xs ys zs a b k ha hb) refl)

loads-Loads : Loads loads
loads-Loads v = inl (v, refl)

abbrev blob_fields : String → Fields ℤ
blob_fields geohash =
    field "geohash" (str geohash) (field "window_start" (str "t") (field "count" (num (pos 1)) end))

abbrev blob : String → Value ℤ
blob geohash = obj (blob_fields geohash)

abbrev two_cells : List (Value ℤ)
two_cells = blob "u2" ∷ str "no object" ∷ blob "u3" ∷ []

abbrev one_cell : List (Value ℤ)
one_cell = blob "u2" ∷ blob "u2" ∷ []

abbrev killed_once : List BatchEvent
killed_once = batch 1 ∷ killed_before_commit 5 ∷ killed_before_upsert ∷ []

run-newest_example :
    let w = run loads write_rows 2 two_cells killed_once (start []) in
    FromPrefix same_key loads two_cells w.committed "u3" (find_row w.table "u3")
run-newest_example =
    run-newest loads write_rows same_key find_row loads-Loads write_rows-Upserts 2 two_cells
      killed_once [] (λ k. refl) "u3"

killed_once_lem : (run loads write_rows 2 two_cells killed_once (start [])).committed ≡ 1
unfolding run decode build_rows record_to_row truthy get
killed_once_lem = refl

one_row : (r : Result (Value ℤ)) → repeats (row_of loads r ++ []) ≡ false
one_row (ok v) = one_row_if (record_to_row v)
  where
    one_row_if : (r : Result (Row ℤ)) → repeats (row_if loads r ++ []) ≡ false
    one_row_if (ok row) = refl
    one_row_if (raise e) = refl
one_row (raise e) = refl

one_message :
    (table : List (Row ℤ)) (values : List (Value ℤ))
    → (table' : List (Row ℤ)) × (write_rows table (rows_of loads (take 1 values)) ≡ ok table')
one_message table [] = (table ++ [], refl)
one_message table (v ∷ values) =
    (table ++ (row_of loads (loads v) ++ []), rw (one_row (loads v)) refl)

-- A batch of one message has no repeats.
one_each-Succeeds : Succeeds loads write_rows 1 two_cells
one_each-Succeeds table c zero h = (table ++ [], refl)
one_each-Succeeds table c (suc zero) h = one_message table (drop c two_cells)
one_each-Succeeds table c (suc (suc m)) h = absurd (omega arith)

abbrev left_alone : List BatchEvent
left_alone = batch 1 ∷ batch 1 ∷ batch 9 ∷ []

run-all_example :
    let w =
      run loads write_rows 1 two_cells left_alone
        (run loads write_rows 1 two_cells killed_once (start [])) in
    (w.committed ≡ length two_cells)
    × ((k : String) → find_row w.table k ≡ newest same_key k (rows_of loads two_cells))
run-all_example =
    run-all loads write_rows 1 two_cells loads-Loads one_each-Succeeds same_key find_row
      write_rows-Upserts killed_once left_alone [] (λ k. refl) (omega arith) (omega arith)
      (omega arith)

abbrev retries : List BatchEvent
retries = batch 2 ∷ killed_before_commit 3 ∷ batch 7 ∷ []

run_stuck_example : run loads write_rows 200 one_cell retries (start []) ≡ start []
unfolding record_to_row truthy get row_from
run_stuck_example =
    run_stuck loads write_rows same_key loads-Loads write_rows-RefusesRepeats 200 "u2" [] [] []
      (blob "u2") (blob "u2") (row_from (blob_fields "u2")) (row_from (blob_fields "u2")) refl refl
      refl refl one_cell retries (start []) (refl, refl) (omega arith)
