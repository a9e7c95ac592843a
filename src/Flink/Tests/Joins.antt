-- ===== src/Flink/Tests/Joins.antt =====
-- The join of alerts and blobs on concrete inputs.
use radiation_tracking.Prelude.{String, ◌≡◌, refl, none, List, [], ◌∷◌}
use radiation_tracking.Prelude.Int.{ℤ, pos}
use radiation_tracking.Python.{Result, ok, Value, null, num, str, obj, Fields, field, end}
use radiation_tracking.Flink.Tests.Samples.{read_integers}
use radiation_tracking.Flink.RegionJoin
use radiation_tracking.Flink.RegionJoin.{Input, alert, blob}
use radiation_tracking.Flink.RegionJoin.Latest.{joined, run-joined}

abbrev cell : Fields ℤ
cell = field "geohash" (str "ud9wr") (field "cpm_avg" (num (pos 40)) end)

abbrev loads : String → Result (Value ℤ)
loads s = ok (obj cell)

abbrev dumps : Fields ℤ → String
dumps b = "cell"

abbrev inputs : List (Input ℤ)
inputs =
    alert (field "sensor_id" (str "s1") end)
    ∷ blob cell
    ∷ alert (field "sensor_id" (str "s2") end)
    ∷ []

run-joined_example : RegionJoin.run loads dumps none inputs ≡ joined loads dumps null inputs
run-joined_example = run-joined loads dumps inputs (refl, refl, tt)
