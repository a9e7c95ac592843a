-- ===== src/Provider/Reader/Tests.antt =====
-- Three rows in batches of two.
use mathlib.Core.List.{Perm}
use radiation_tracking.Prelude.{◌≡◌, ◌<◌, String, none, some, List, [], ◌∷◌, ◌++◌, length, max, All}
use radiation_tracking.Provider.Rows.{CsvRow}
use radiation_tracking.Provider.Samples.{row_at}
use radiation_tracking.Provider.Reader.{stream_file, pick_order_col, sort_batch}
use radiation_tracking.Provider.Reader.Sorting.{IsSorted}
use radiation_tracking.Provider.Reader.Batches.{concat, concat_sorted, kept, stream_file_lem}

abbrev three_rows : List CsvRow
three_rows =
    row_at "7" "2020-02-01" "35" "10"
    ∷ row_at "8" "2020-01-01" "36" "20"
    ∷ row_at "9" "2020-03-01" "37" "30"
    ∷ []

abbrev by_capture : List (String × String)
by_capture = ("device_id", "device_id") ∷ ("captured_at", "captured_at") ∷ []

stream_file_lem_example :
    let order_col = pick_order_col by_capture in
    let stream = stream_file 2 0 (some "2020-01-01") none by_capture three_rows in
    (bs : List (List CsvRow)) × (last : List CsvRow) × (concat bs ++ last
      ≡ kept 2 0 (some "2020-01-01") none by_capture three_rows)
    × All (λ b. length b ≡ max 2 1) bs
    × (length last < max 2 1)
    × (stream ≡ concat_sorted order_col bs ++ sort_batch order_col last)
    × All (λ b. IsSorted order_col (sort_batch order_col b)) (bs ++ (last ∷ []))
    × Perm stream (kept 2 0 (some "2020-01-01") none by_capture three_rows)
stream_file_lem_example = stream_file_lem 2 0 (some "2020-01-01") none by_capture three_rows
