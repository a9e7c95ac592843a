-- ===== src/Sink/Consumer/Messages.antt =====
-- The rows that the messages of a batch stand for.
use radiation_tracking.Prelude.{
  ◌≡◌, refl, sym, ◌⊎◌, inl, inr, true, List, [], ◌∷◌, ◌++◌, length, arith, Bool-cases, not, ◌||◌,
  append_assoc,
}
use radiation_tracking.Python.{
  Number, Value, null, bool, num, str, arr, obj, get, truthy, is_none, Result, ok, raise,
  type_error, value_error, json_decode_error,
}
use radiation_tracking.Sink.Rows.{
  Row, record_to_row, build_rows, decode, skip_value_error, skip_non_json, row_from,
}
use radiation_tracking.Sink.Consumer.{no_values}

pub length-empty : {A : Type 0} (xs : List A) → no_values xs ≡ true → length xs ≡ 0
length-empty [] h = refl
length-empty (x ∷ xs) h = absurd (ground arith)

module _ {F : Type 0} ⦃n : Number F⦄ where
  pub record_to_row-cases :
      (v : Value F)
      → ((row : Row F) × (record_to_row v ≡ ok row)) ⊎ (record_to_row v ≡ raise value_error)
  unfolding record_to_row
  record_to_row-cases (obj d) =
      elim (Bool-cases (
        not (truthy (get d "geohash"))
        || not (truthy (get d "window_start"))
        || is_none (get d "count"))) [
          | inl e ↦ rw e (inr refl)
          | inr e ↦ rw e (inl (row_from d, refl))
        ]
  record_to_row-cases null = inr refl
  record_to_row-cases (bool b) = inr refl
  record_to_row-cases (num x) = inr refl
  record_to_row-cases (str s) = inr refl
  record_to_row-cases (arr xs) = inr refl

module _ {F T : Type 0} ⦃n : Number F⦄ (loads : T → Result (Value F)) where
  -- `json.loads` returns a value, or raises JSONDecodeError or, where the value is null, TypeError.
  abbrev pub Loads : Type 0
  Loads =
      (raw : T)
      → ((v : Value F) × (loads raw ≡ ok v))
        ⊎ (loads raw ≡ raise json_decode_error)
        ⊎ (loads raw ≡ raise type_error)

  abbrev pub row_if : Result (Row F) → List (Row F)
  row_if (ok row) = row ∷ []
  row_if (raise e) = []

  -- The row that a message stands for, if it is well-formed.
  abbrev pub row_of : Result (Value F) → List (Row F)
  row_of (ok v) = row_if (record_to_row v)
  row_of (raise e) = []

  abbrev pub rows_of : List T → List (Row F)
  rows_of [] = []
  rows_of (raw ∷ values) = row_of (loads raw) ++ rows_of values

  pub rows_of-append : (xs ys : List T) → rows_of (xs ++ ys) ≡ rows_of xs ++ rows_of ys
  rows_of-append [] ys = refl
  rows_of-append (x ∷ xs) ys =
      rw (rows_of-append xs ys) (sym (append_assoc (row_of (loads x)) (rows_of xs) (rows_of ys)))

  module _ (loaded : Loads) where
    -- A batch is decoded and mapped to the rows of its well-formed messages.
    pub decode-build_rows :
        (values : List T)
        → (records : List (Value F)) × (decode loads values ≡ ok records)
          × (build_rows records ≡ ok (rows_of values))
    unfolding decode build_rows skip_value_error skip_non_json
    decode-build_rows [] = ([], refl, refl)
    decode-build_rows (raw ∷ values) =
        let (records, hd, hb) = decode-build_rows values in
        elim (loaded raw) [
          | inl (v, e) ↦ elim (record_to_row-cases v) [
            | inl (row, r) ↦ (v ∷ records, rw (e, hd) refl, rw (e, r, hb) refl)
            | inr r ↦ (v ∷ records, rw (e, hd) refl, rw (e, r, hb) refl)
          ]
          | inr (inl e) ↦ (records, rw (e, hd) refl, rw (e, hb) refl)
          | inr (inr e) ↦ (records, rw (e, hd) refl, rw (e, hb) refl)
        ]
