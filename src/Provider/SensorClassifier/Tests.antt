-- ===== src/Provider/SensorClassifier/Tests.antt =====
-- Labels of concrete readings, on a flat earth.
use radiation_tracking.Prelude.{◌≡◌, none, List, [], ◌∷◌}
use radiation_tracking.Prelude.Int.{ℤ, pos}
use radiation_tracking.Python.Integers.{integers}
use radiation_tracking.Provider.SensorClassifier.{Trigonometry}
use radiation_tracking.Provider.SensorClassifier.Own.{
  Reading, labels, own, alone, Sticky, labels_lem,
}

abbrev flat : Trigonometry ℤ
flat = record { radians = λ x. x; sin = λ x. x; cos = λ x. pos 1; asin = λ x. x }

abbrev at : ℤ → Reading ℤ
at latitude = record { sensor_id = "s1"; latitude = latitude; longitude = pos 24 }

abbrev readings_of : List (Reading ℤ)
readings_of =
    at (pos 10)
    ∷ record { sensor_id = "s2"; latitude = pos 0; longitude = pos 0 }
    ∷ at (pos 90)
    ∷ at (pos 10)
    ∷ []

labels_lem_example :
    (labels flat (pos 200) "s1" [] readings_of
      ≡ alone flat (pos 200) none (own flat (pos 200) "s1" readings_of))
    × Sticky flat (pos 200) (labels flat (pos 200) "s1" [] readings_of)
labels_lem_example = labels_lem flat (pos 200) "s1" readings_of
