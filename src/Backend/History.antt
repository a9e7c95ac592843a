-- ===== src/Backend/History.antt =====
-- backend/app/core/history_db.py and backend/app/routers/history.py: the read-only queries over the
-- archive of blobs. Postgres is a parameter: which attempts to reach it succeed, and what a query
-- returns, if it does not raise.
pub mod Sql
pub mod Selection
pub mod Endpoints
mod Tests
use radiation_tracking.Prelude.{
  ℕ, zero, suc, ◌+◌, ◌-◌, max, String, Bool, true, false, not, ◌&&◌, ◌||◌, Option, none, some, List,
  [], ◌∷◌, ◌++◌, length, ltb, if◌then◌else◌,
}
use radiation_tracking.Prelude.Int.{ℤ, pos, pos_part, leb_ℤ}
use radiation_tracking.Python.{Number, Result, ok, raise, value_error}
use radiation_tracking.Backend.History.Sql.{
  Condition, centroid_between, starts_after, starts_before,
}

pub record BBox (F : Type 0) : Type 0 where
  pub south : F
  pub north : F
  pub west : F
  pub east : F

-- A bound value of a query.
pub data Param (F D : Type 0) : Type 0 where
  number : F → Param F D
  time : D → Param F D
  count : ℕ → Param F D

module _ {F : Type 0} ⦃n : Number F⦄ where
  -- The checks of a box with all its bounds.
  unfoldable pub ordered_box : F → F → F → F → Result (Option (BBox F))
  ordered_box min_lat max_lat min_lon max_lon =
      if not (n.lt min_lat max_lat)
      then raise value_error
      else if not (n.lt min_lon max_lon)
      then raise value_error
      else ok (some (record { south = min_lat; north = max_lat; west = min_lon; east = max_lon }))

  -- `BBox(…)`: none where no bound is given.
  unfoldable pub bbox : Option F → Option F → Option F → Option F → Result (Option (BBox F))
  unfolding ordered_box
  bbox none none none none = ok none
  bbox (some min_lat) (some max_lat) (some min_lon) (some max_lon) =
      ordered_box min_lat max_lat min_lon max_lon
  bbox _ _ _ _ = raise value_error

-- `_where` by its parts: the conditions so far and the parameters.
abbrev pub Clauses : Type 0 → Type 0 → Type 0
Clauses F D = List Condition × List (Param F D)

module _ {F D : Type 0} where
  unfoldable pub add_box : Option (BBox F) → Clauses F D → Clauses F D
  add_box none (clauses, params) = (clauses, params)
  add_box (some box) (clauses, params) =
      let params' =
        params ++ (number box.south ∷ number box.north ∷ number box.west ∷ number box.east ∷ []) in
      let n = length params' in
      (clauses ++ (centroid_between (n - 3) (n - 2) (n - 1) n ∷ []), params')

  unfoldable pub add_start : Option D → Clauses F D → Clauses F D
  add_start none (clauses, params) = (clauses, params)
  add_start (some start) (clauses, params) =
      let params' = params ++ (time start ∷ []) in
      (clauses ++ (starts_after (length params') ∷ []), params')

  unfoldable pub add_end : Option D → Clauses F D → Clauses F D
  add_end none (clauses, params) = (clauses, params)
  add_end (some end) (clauses, params) =
      let params' = params ++ (time end ∷ []) in
      (clauses ++ (starts_before (length params') ∷ []), params')

  -- `_where(bbox, start, end, params)`
  unfoldable pub where_clauses :
      Option (BBox F) → Option D → Option D → List (Param F D) → Clauses F D
  unfolding add_box add_start add_end
  where_clauses box start end params = add_end end (add_start start (add_box box ([], params)))

  -- The conditions and the parameters of `timeseries` and `hotspots`, the limit last.
  unfoldable pub query_of : Option (BBox F) → Option D → Option D → ℕ → Clauses F D
  unfolding where_clauses
  query_of box start end limit =
      let (clauses, params) = where_clauses box start end [] in
      (clauses, params ++ (count limit ∷ []))

module _ (up : ℕ → Bool) where
  -- The attempts of `HistoryDB.connect`: the one that made the pool, and the number of sleeps.
  unfoldable pub pool_attempts : ℕ → ℕ → ℕ → Option ℕ × ℕ
  pool_attempts attempts attempt zero = (none, 0)
  pool_attempts attempts attempt (suc left) =
      let (pool, sleeps) = pool_attempts attempts (attempt + 1) left in
      if up attempt
      then (some attempt, 0)
      else (pool, if ltb attempt attempts then sleeps + 1 else sleeps)

  unfoldable pub connect_pool : Bool → ℤ → Option ℕ × ℕ
  unfolding pool_attempts
  connect_pool enabled retry_attempts =
      let attempts = max 1 (pos_part retry_attempts) in
      if not enabled then (none, 0) else pool_attempts attempts 1 attempts

-- The answer of an endpoint: 422, 503, or the rows of the query.
pub data HistoryResponse (R : Type 0) : Type 0 where
  unprocessable : HistoryResponse R
  unavailable : HistoryResponse R
  rows : R → HistoryResponse R

-- After `_require_archive`; none where the query raises, which `_fetch` turns into
-- ArchiveQueryError.
unfoldable pub answer : {R : Type 0} → Bool → Option R → HistoryResponse R
answer {R} available fetched =
    let found : HistoryResponse R = elim fetched [ none ↦ unavailable | some r ↦ rows r ] in
    if not available then unavailable else found

module _ {F D R : Type 0} where
  -- After `_bbox`.
  unfoldable pub answer_box :
      (Clauses F D → Option R)
      → Bool
      → Option D
      → Option D
      → ℕ
      → Result (Option (BBox F))
      → HistoryResponse R
  unfolding answer
  answer_box fetch available start end limit (raise e) = unprocessable
  answer_box fetch available start end limit (ok box) =
      answer available (fetch (query_of box start end limit))

-- Query(ge=1, le=100)
abbrev pub limit_fits : ℤ → Bool
limit_fits limit = leb_ℤ (pos 1) limit && leb_ℤ limit (pos 100)

module _ {F : Type 0} ⦃n : Number F⦄ where
  -- Query(ge=-bound, le=bound) of an optional parameter
  abbrev pub coordinate_fits : ℕ → Option F → Bool
  coordinate_fits bound none = true
  coordinate_fits bound (some x) = n.le (n.neg (n.of_ℕ bound)) x && n.le x (n.of_ℕ bound)

  unfoldable pub coordinates_fit : Option F → Option F → Option F → Option F → Bool
  coordinates_fit min_lat max_lat min_lon max_lon =
      coordinate_fits 90 min_lat
      && coordinate_fits 90 max_lat
      && coordinate_fits 180 min_lon
      && coordinate_fits 180 max_lon

module _ {F D R : Type 0} ⦃n : Number F⦄ where
  -- The handlers `get_timeseries`, with `history_max_rows` for the limit, and `get_hotspots`; the
  -- argument `fetch` is the statement of each.
  unfoldable pub get_history :
      (Clauses F D → Option R)
      → Bool
      → Option F
      → Option F
      → Option F
      → Option F
      → Option D
      → Option D
      → ℕ
      → HistoryResponse R
  unfolding bbox answer_box
  get_history fetch available min_lat max_lat min_lon max_lon start end limit =
      answer_box fetch available start end limit (bbox min_lat max_lat min_lon max_lon)

  -- GET /history/timeseries: FastAPI checks the parameters before the handler.
  unfoldable pub get_timeseries :
      (Clauses F D → Option R)
      → Bool
      → Option F
      → Option F
      → Option F
      → Option F
      → Option D
      → Option D
      → ℕ
      → HistoryResponse R
  unfolding get_history coordinates_fit
  get_timeseries fetch available min_lat max_lat min_lon max_lon start end max_rows =
      if coordinates_fit min_lat max_lat min_lon max_lon
      then get_history fetch available min_lat max_lat min_lon max_lon start end max_rows
      else unprocessable

  -- GET /history/hotspots
  unfoldable pub get_hotspots :
      (Clauses F D → Option R)
      → Bool
      → Option F
      → Option F
      → Option F
      → Option F
      → Option D
      → Option D
      → ℤ
      → HistoryResponse R
  unfolding get_history coordinates_fit
  get_hotspots fetch available min_lat max_lat min_lon max_lon start end limit =
      if coordinates_fit min_lat max_lat min_lon max_lon && limit_fits limit
      then get_history fetch available min_lat max_lat min_lon max_lon start end (pos_part limit)
      else unprocessable
