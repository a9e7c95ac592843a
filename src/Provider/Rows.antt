-- ===== src/Provider/Rows.antt =====
-- The rows of the CSV file as `csv.DictReader` and data-provider/csv_reader.py hold them, and the
-- timestamps in them. A field is None where a line is too short.
use Prim.Native.Char.{code}
use Prim.Native.String.{◌++◌}
use radiation_tracking.Prelude.{String, Option, none, List, [], ◌∷◌, ◌==◌, str_eq, if◌then◌else◌}
use radiation_tracking.Python.Text.{strip, replace_z, prefix, suffix}

abbrev pub CsvRow : Type 0
CsvRow = List (String × Option String)

-- `row.get(k, default)`
unfoldable pub field_or : CsvRow → String → Option String → Option String
field_or [] k default = default
field_or ((j, v) ∷ row) k default = if str_eq j k then v else field_or row k default

-- `row.get(k)`
unfoldable pub csv_field : CsvRow → String → Option String
unfolding field_or
csv_field row k = field_or row k none

-- `d[k] = v`
unfoldable pub set_field {ℓ} : {A : Type ℓ} → List (String × A) → String → A → List (String × A)
set_field [] k v = (k, v) ∷ []
set_field ((j, w) ∷ d) k v =
    let rest = set_field d k v in if str_eq j k then (j, v) ∷ d else (j, w) ∷ rest

-- The eleventh character, where it is a space, becomes a "T".
unfoldable pub date_separator : String → String → String
date_separator ts String.[] = ts
date_separator ts (String.◌∷◌ c rest) = if code c == 32 then prefix 10 ts ++ ("T" ++ rest) else ts

-- `_parse_ts`
unfoldable pub normalise_ts : String → String
unfolding date_separator
normalise_ts raw = let ts = replace_z (strip raw) in date_separator ts (suffix 10 ts)
