-- ===== src/Provider/Reader/Sorting.antt =====
-- The sort of a batch: ordered by upload time, and a rearrangement of the batch.
use mathlib.Core.List.{Perm}
use mathlib.Core.List.Perm
use radiation_tracking.Prelude.{
  ◌≡◌, refl, String, Bool, true, false, List, [], ◌∷◌, arith, Bool-cases, inl, inr,
}
use radiation_tracking.Python.Text.{text_lt}
use radiation_tracking.Provider.Rows.{CsvRow}
use radiation_tracking.Provider.Reader.{sort_key, key_lt, insert_row, sort_batch}

text_lt_asymm : (s t : String) → text_lt s t ≡ true → text_lt t s ≡ false
unfolding text_lt
text_lt_asymm String.[] String.[] h = refl
text_lt_asymm (String.◌∷◌ c s) String.[] h = absurd (ground arith)
text_lt_asymm String.[] (String.◌∷◌ d t) h = refl
text_lt_asymm (String.◌∷◌ c s) (String.◌∷◌ d t) h = ground (arith, text_lt_asymm s t)

key_lt_asymm : (a b : Bool × String) → key_lt a b ≡ true → key_lt b a ≡ false
unfolding key_lt
key_lt_asymm (false, s) (true, t) h = refl
key_lt_asymm (true, s) (false, t) h = absurd (ground arith)
key_lt_asymm (true, s) (true, t) h = text_lt_asymm s t h
key_lt_asymm (false, s) (false, t) h = text_lt_asymm s t h

module _ (order_col : String) where
  -- No row comes before its predecessor.
  abbrev Follows : CsvRow → List CsvRow → Type 0
  Follows row [] = Unit
  Follows row (x ∷ xs) = key_lt (sort_key order_col x) (sort_key order_col row) ≡ false

  abbrev pub IsSorted : List CsvRow → Type 0
  IsSorted [] = Unit
  IsSorted (x ∷ xs) = Follows x xs × IsSorted xs

  Follows-insert_row :
      (y row : CsvRow) (xs : List CsvRow)
      → Follows y xs
      → key_lt (sort_key order_col row) (sort_key order_col y) ≡ false
      → Follows y (insert_row order_col row xs)
  unfolding insert_row
  Follows-insert_row y row [] h k = k
  Follows-insert_row y row (x ∷ xs) h k =
      elim (Bool-cases (key_lt (sort_key order_col x) (sort_key order_col row))) [
        | inl e ↦ rw e h
        | inr e ↦ rw e k
      ]

  insert_row-IsSorted :
      (row : CsvRow) (xs : List CsvRow) → IsSorted xs → IsSorted (insert_row order_col row xs)
  unfolding insert_row
  insert_row-IsSorted row [] h = (tt, tt)
  insert_row-IsSorted row (x ∷ xs) h =
      elim (Bool-cases (key_lt (sort_key order_col x) (sort_key order_col row))) [
        | inl e ↦ rw e (
          Follows-insert_row x row xs h.0
              (key_lt_asymm (sort_key order_col x) (sort_key order_col row) e),
          insert_row-IsSorted row xs h.1,
        )
        | inr e ↦ rw e (e, h)
      ]

  pub sort_batch-IsSorted : (batch : List CsvRow) → IsSorted (sort_batch order_col batch)
  unfolding sort_batch
  sort_batch-IsSorted [] = tt
  sort_batch-IsSorted (row ∷ batch) =
      insert_row-IsSorted row (sort_batch order_col batch) (sort_batch-IsSorted batch)

  insert_row-perm :
      (row : CsvRow) (xs : List CsvRow) → Perm (insert_row order_col row xs) (row ∷ xs)
  unfolding insert_row
  insert_row-perm row [] = Perm.refl _
  insert_row-perm row (x ∷ xs) =
      elim (Bool-cases (key_lt (sort_key order_col x) (sort_key order_col row))) [
        | inl e ↦ rw e (Perm.trans (Perm.cons x (insert_row-perm row xs)) (Perm.swap row x xs))
        | inr e ↦ rw e (Perm.refl _)
      ]

  pub sort_batch-perm : (batch : List CsvRow) → Perm (sort_batch order_col batch) batch
  unfolding sort_batch
  sort_batch-perm [] = Perm.refl _
  sort_batch-perm (row ∷ batch) =
      Perm.trans (insert_row-perm row (sort_batch order_col batch))
        (Perm.cons row (sort_batch-perm batch))
