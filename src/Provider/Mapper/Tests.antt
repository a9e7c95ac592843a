-- ===== src/Provider/Mapper/Tests.antt =====
-- The event of a row, and a row that is discarded.
use radiation_tracking.Prelude.{◌≡◌, refl, String, Bool, false, none, some}
use radiation_tracking.Prelude.Int.{ℤ, pos}
use radiation_tracking.Python.{Value, Fields}
use radiation_tracking.Python.Text.{strip, replace_z, suffix, prefix}
use radiation_tracking.Provider.Rows.{CsvRow, csv_field, normalise_ts}
use radiation_tracking.Provider.Samples.{decimals, row_at}
use radiation_tracking.Provider.Mapper.{row_to_event, event_of}
use radiation_tracking.Provider.Mapper.Events.{IsPrefiltered, validate-row_to_event}

abbrev hexdigest : String → String
hexdigest s = s

abbrev violates : Value ℤ → Bool
violates v = false

abbrev reading : CsvRow
reading = row_at "7" "2020-02-01 10:00:00Z" "35" "2000000"

abbrev reading_event : Fields ℤ
reading_event = event_of hexdigest reading "7" "2020-02-01T10:00:00+00:00" (pos 35) (pos 139)

reading_mapped : row_to_event hexdigest reading ≡ some reading_event
unfolding row_to_event csv_field strip normalise_ts suffix replace_z prefix
reading_mapped = refl

validate-row_to_event_example : IsPrefiltered hexdigest violates reading reading_event
validate-row_to_event_example =
    validate-row_to_event hexdigest violates reading reading_event reading_mapped

far_north : row_to_event {F = ℤ} hexdigest (row_at "7" "2020-02-01" "95" "10") ≡ none
unfolding row_to_event csv_field strip normalise_ts suffix replace_z prefix
far_north = refl
