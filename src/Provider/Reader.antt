-- ===== src/Provider/Reader.antt =====
-- data-provider/csv_reader.py. The file is what `csv.DictReader` makes of it: its header, if it has
-- one, and its rows; none where there is no file. `str.lower` is a parameter.
pub mod Sorting
pub mod Batches
mod Tests
use radiation_tracking.Prelude.{
  ℕ, ◌+◌, String, Bool, true, false, not, ◌&&◌, ◌||◌, Option, none, some, List, [], ◌∷◌, ◌++◌, map,
  length, ltb, leb, str_eq, if◌then◌else◌,
}
use radiation_tracking.Python.Text.{strip, text_lt, replace_spaces}
use radiation_tracking.Provider.Rows.{CsvRow, field_or, csv_field, set_field, normalise_ts}

abbrev pub File : Type 0
File = Option (Option (List String) × List CsvRow)

-- `_HEADER_ALIASES.get`
unfoldable pub header_alias : String → Option String
unfolding csv_field
header_alias name =
    csv_field
      (("captured_time", some "captured_at")
        ∷ ("captured_at", some "captured_at")
        ∷ ("uploaded_time", some "uploaded_at")
        ∷ ("uploaded_at", some "uploaded_at")
        ∷ ("latitude", some "latitude")
        ∷ ("longitude", some "longitude")
        ∷ ("value", some "value")
        ∷ ("unit", some "unit")
        ∷ ("location_name", some "location_name")
        ∷ ("device_id", some "device_id")
        ∷ ("sensor_id", some "sensor_id")
        ∷ ("md5sum", some "md5sum")
        ∷ ("height", some "height")
        ∷ ("surface", some "surface")
        ∷ ("loader_id", some "measurement_import_id")
        ∷ ("measurement_import_id", some "measurement_import_id")
        ∷ [])
      name

-- The test of one bound, which may be absent.
unfoldable pub before_start : Option String → String → Bool
before_start none ts = false
before_start (some start_ts) ts = text_lt ts (normalise_ts start_ts)

unfoldable pub after_end : Option String → String → Bool
after_end none ts = false
after_end (some end_ts) ts = text_lt (normalise_ts end_ts) ts

-- A row whose captured_at is missing or empty is kept.
unfoldable pub in_span_at : Option String → Option String → Option String → Bool
unfolding before_start after_end
in_span_at start_ts end_ts none = true
in_span_at start_ts end_ts (some raw) =
    if str_eq raw ""
    then true
    else not (before_start start_ts (normalise_ts raw)) && not (after_end end_ts (normalise_ts raw))

unfoldable pub in_span : Option String → Option String → CsvRow → Bool
unfolding in_span_at
in_span start_ts end_ts row = in_span_at start_ts end_ts (field_or row "captured_at" (some ""))

-- `_norm_header`
unfoldable pub norm_header : (String → String) → String → String
norm_header lower col = replace_spaces (lower (strip col))

-- `_build_rename_map`, from the columns that are left and the names found so far
unfoldable pub rename_from :
    (String → String) → List String → List (String × String) → List (String × String)
unfolding norm_header header_alias
rename_from lower [] rename = rename
rename_from lower (col ∷ cols) rename =
    rename_from lower cols (elim (header_alias (norm_header lower col)) [
      | none ↦ rename
      | some internal ↦ set_field rename col internal
    ])

unfoldable pub build_rename_map : (String → String) → List String → List (String × String)
unfolding rename_from
build_rename_map lower fieldnames = rename_from lower fieldnames []

unfoldable pub mentions : List (String × String) → String → Bool
mentions [] name = false
mentions ((src, internal) ∷ rename) name = str_eq internal name || mentions rename name

unfoldable pub pick_order_col : List (String × String) → String
unfolding mentions
pick_order_col rename = if mentions rename "uploaded_at" then "uploaded_at" else "captured_at"

-- `_filter_row`, from the columns that are left
unfoldable pub filter_from : CsvRow → List (String × String) → CsvRow → CsvRow
filter_from row [] kept = kept
filter_from row ((src, internal) ∷ rename) kept =
    filter_from row rename (set_field kept internal (field_or row src (some "")))

unfoldable pub filter_row : List (String × String) → CsvRow → CsvRow
unfolding filter_from
filter_row rename row = filter_from row rename []

-- `r.get(order_col) or ""`
abbrev pub text_or_empty : Option String → String
text_or_empty none = ""
text_or_empty (some s) = s

-- The sort key: whether the column is empty, then its text.
unfoldable pub sort_key : String → CsvRow → Bool × String
unfolding csv_field
sort_key order_col row =
    let text = text_or_empty (csv_field row order_col) in (str_eq text "", text)

unfoldable pub key_lt : Bool × String → Bool × String → Bool
key_lt (false, s) (true, t) = true
key_lt (true, s) (false, t) = false
key_lt (a, s) (b, t) = text_lt s t

-- `batch.sort(key=…)`: a stable sort.
unfoldable pub insert_row : String → CsvRow → List CsvRow → List CsvRow
insert_row order_col row [] = row ∷ []
insert_row order_col row (x ∷ xs) =
    let rest = insert_row order_col row xs in
    if key_lt (sort_key order_col x) (sort_key order_col row) then x ∷ rest else row ∷ x ∷ xs

unfoldable pub sort_batch : String → List CsvRow → List CsvRow
unfolding insert_row
sort_batch order_col [] = []
sort_batch order_col (row ∷ batch) = insert_row order_col row (sort_batch order_col batch)

-- The variables of the loop, with what it has yielded.
pub record Progress : Type 0 where
  pub skipped : ℕ
  pub batch : List CsvRow
  pub yielded : List CsvRow

module _ (batch_size skip_rows : ℕ) (start_ts end_ts : Option String) where
  -- One round of the loop.
  unfoldable pub read_row : List (String × String) → Progress → CsvRow → Progress
  unfolding sort_batch
  read_row rename p raw_row =
      let filtered = filter_row rename raw_row in
      let order_col = pick_order_col rename in
      let batch = p.batch ++ (filtered ∷ []) in
      if ltb p.skipped skip_rows
      then record p { skipped = p.skipped + 1 }
      else if not (in_span start_ts end_ts filtered)
      then p
      else if leb batch_size (length batch)
      then record p { batch = []; yielded = p.yielded ++ sort_batch order_col batch }
      else record p { batch = batch }

  unfoldable pub read_rows : List (String × String) → Progress → List CsvRow → Progress
  unfolding read_row
  read_rows rename p [] = p
  read_rows rename p (raw_row ∷ rows) = read_rows rename (read_row rename p raw_row) rows

  -- The loop, and the final partial batch.
  unfoldable pub stream_file : List (String × String) → List CsvRow → List CsvRow
  unfolding read_rows
  stream_file rename rows =
      let p = read_rows rename (record { skipped = 0; batch = []; yielded = [] }) rows in
      p.yielded ++ sort_batch (pick_order_col rename) p.batch

  -- All that the generator yields; none where it raises FileNotFoundError.
  unfoldable pub stream_rows : (String → String) → File → Option (List CsvRow)
  unfolding stream_file
  stream_rows lower none = none
  stream_rows lower (some (none, rows)) = some []
  stream_rows lower (some (some fieldnames, rows)) =
      some (stream_file (build_rename_map lower fieldnames) rows)
