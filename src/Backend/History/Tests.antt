-- ===== src/Backend/History/Tests.antt =====
-- An archive that is reached at the second attempt.
use radiation_tracking.Prelude.{
  ℕ, ◌≡◌, Bool, true, ◌&&◌, Option, none, some, max, ◌==◌, if◌then◌else◌,
}
use radiation_tracking.Prelude.Int.{ℤ, pos, pos_part, leb_ℤ}
use radiation_tracking.Python.Integers.{integers}
use radiation_tracking.Backend.History.{
  BBox, Clauses, query_of, get_timeseries, get_hotspots, coordinates_fit, limit_fits, connect_pool,
}
use radiation_tracking.Backend.History.Selection.{
  ArchiveRow, selects, in_bbox, since, up_to, query_of-selects,
}
use radiation_tracking.Backend.History.Endpoints.{
  is_some, any_up, well_formed, expected, get_history-expected,
}

abbrev europe : BBox ℤ
europe = record { south = pos 35; north = pos 70; west = pos 0; east = pos 40 }

abbrev helsinki : ArchiveRow ℤ ℤ
helsinki = record {
  centroid_latitude = some (pos 60);
  centroid_longitude = some (pos 24);
  window_start = pos 100;
}

query_of-selects_example :
    selects leb_ℤ (query_of (some europe) (some (pos 50)) (some (pos 100)) 10) helsinki ≡ (
      in_bbox leb_ℤ (some europe) helsinki
      && (since leb_ℤ (some (pos 50)) helsinki && up_to leb_ℤ (some (pos 100)) helsinki))
query_of-selects_example =
    query_of-selects leb_ℤ (some europe) (some (pos 50)) (some (pos 100)) 10 helsinki

abbrev no_rows : Clauses ℤ ℤ → Option ℕ
no_rows clauses = some 0

abbrev second_time : ℕ → Bool
second_time a = a == 2

get_history-expected_example :
    let available = is_some (connect_pool second_time true (pos 5)).0 in
    let connected = true && any_up second_time 1 (max 1 (pos_part (pos 5))) in
    (get_timeseries no_rows available
        (some (pos 35))
        (some (pos 70))
        (some (pos 0))
        (some (pos 40))
        none
        none
        1000
      ≡ expected no_rows
          (if coordinates_fit (some (pos 35)) (some (pos 70)) (some (pos 0)) (some (pos 40))
            then well_formed (some (pos 35)) (some (pos 70)) (some (pos 0)) (some (pos 40))
            else none)
          connected
          none
          none
          1000)
    × (get_hotspots no_rows available
          (some (pos 35))
          (some (pos 70))
          (some (pos 0))
          (some (pos 40))
          none
          none
          (pos 101)
        ≡ expected no_rows
            (if coordinates_fit (some (pos 35)) (some (pos 70)) (some (pos 0)) (some (pos 40))
                && limit_fits (pos 101)
              then well_formed (some (pos 35)) (some (pos 70)) (some (pos 0)) (some (pos 40))
              else none)
            connected
            none
            none
            101)
get_history-expected_example =
    get_history-expected no_rows second_time true (pos 5) (some (pos 35)) (some (pos 70))
      (some (pos 0)) (some (pos 40)) none none 1000 (pos 101)
