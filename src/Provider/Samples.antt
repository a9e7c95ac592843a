-- ===== src/Provider/Samples.antt =====
-- Rows and numbers for the runs of the data provider.
use Prim.Native.Char.{code}
use radiation_tracking.Prelude.{
  ℕ, ◌+◌, ◌-◌, ◌*◌, String, Option, none, some, refl, [], ◌∷◌, if◌then◌else◌, leb, ◌&&◌, str_eq,
}
use radiation_tracking.Prelude.Int.{ℤ, pos}
use radiation_tracking.Python.{Number}
use radiation_tracking.Python.Integers.{integers}
use radiation_tracking.Provider.Rows.{CsvRow}

-- The number that digits stand for, after the digits read so far.
abbrev digits_from : ℕ → String → Option ℤ
digits_from seen String.[] = some (pos seen)
digits_from seen (String.◌∷◌ c s) =
    let rest = digits_from (seen * 10 + (code c - 48)) s in
    if leb 48 (code c) && leb (code c) 57 then rest else none

abbrev parse_digits : String → Option ℤ
parse_digits s = if str_eq s "" then none else digits_from 0 s

instance abbrev pub decimals : Number ℤ
decimals = record integers { parse = parse_digits; parse_fits = λ text x h. refl }

abbrev pub row_at : String → String → String → String → CsvRow
row_at sensor_id captured_at latitude value =
    ("device_id", some sensor_id)
    ∷ ("captured_at", some captured_at)
    ∷ ("latitude", some latitude)
    ∷ ("longitude", some "139")
    ∷ ("value", some value)
    ∷ ("unit", some "cpm")
    ∷ []
