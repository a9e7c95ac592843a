-- ===== src/Backend/Recent.antt =====
-- backend/app/routers/recent.py and backend/app/models.py: the pages of GET /recent.
use radiation_tracking.Prelude.{
  ℕ, String, Bool, false, Option, none, some, List, map, length, if◌then◌else◌,
}
use radiation_tracking.Prelude.Int.{ℤ, pos, leb_ℤ}
use radiation_tracking.Python.{Number, Result, ok, raise, ◌>>=◌, traverse, Datetime}
use radiation_tracking.Backend.RingBuffer.{RingBuffer, Page, page, older}
use radiation_tracking.Backend.ViewFilter.{ViewFilter, as_utc, view_filter, in_box, time_test}
use radiation_tracking.Backend.Stream.{is_noop}

pub record StoredEvent (F D : Type 0) : Type 0 where
  pub sensor_id : String
  pub captured_at : D
  pub uploaded_at : D
  pub latitude : F
  pub longitude : F
  pub cpm : Option F
  pub classification : Option String
  pub unit : Option String
  pub location_name : Option String
  pub height : Option F
  pub surface : Option String
  pub md5sum : Option String
  pub loader_id : Option String

pub record RecentResponse (E : Type 0) : Type 0 where
  pub count : ℕ
  pub events : List E
  pub next_cursor : Option ℕ
  pub has_more : Bool

abbrev pub max_ℤ : ℤ → ℤ → ℤ
max_ℤ a b = if leb_ℤ a b then b else a

abbrev pub min_ℤ : ℤ → ℤ → ℤ
min_ℤ a b = if leb_ℤ a b then a else b

abbrev pub limit_or_default : ℤ → Option ℤ → ℤ
limit_or_default default none = default
limit_or_default default (some limit) = limit

-- max(1, min(limit, recent_max_limit)), where a missing limit is the default.
unfoldable pub clamp : ℤ → ℤ → Option ℤ → ℤ
clamp default_limit max_limit limit =
    max_ℤ (pos 1) (min_ℤ (limit_or_default default_limit limit) max_limit)

abbrev pub is_match : Result Bool → Bool
is_match (ok b) = b
is_match (raise x) = false

module _ {F D : Type 0} ⦃n : Number F⦄ (t : Datetime D) where
  unfoldable pub matches_event : ViewFilter F D → StoredEvent F D → Result Bool
  matches_event f event =
      let timely = time_test t f.from f.until (as_utc t event.captured_at >>= λ d. ok (some d)) in
      if in_box f (some event.latitude) (some event.longitude) then timely else ok false

  -- The page of a filter; without a rule there is no predicate. The predicate is asked of every
  -- event below the cursor, and what it raises is raised.
  unfoldable pub page_for :
      RingBuffer (StoredEvent F D) → Option ℤ → ℤ → ViewFilter F D → Result (Page (StoredEvent F D))
  page_for buffer cursor limit view =
      let candidates = map (λ entry. entry.event) (older cursor buffer.entries) in
      let matching = traverse (matches_event view) candidates >>= λ answers.
      ok (page buffer cursor limit (some (λ event. is_match (matches_event view event)))) in
      if is_noop t view then ok (page buffer cursor limit none) else matching

  -- get_recent; ValueError is answered 422.
  unfoldable pub get_recent :
      ℤ
      → ℤ
      → RingBuffer (StoredEvent F D)
      → Option ℤ
      → Option ℤ
      → Option F
      → Option F
      → Option F
      → Option F
      → Option D
      → Option D
      → Result (RecentResponse (StoredEvent F D))
  unfolding page_for
  get_recent default_limit max_limit buffer limit cursor min_lat max_lat min_lon max_lon from
        until =
      do
        view ← view_filter t min_lat max_lat min_lon max_lon from until
        found ← page_for buffer cursor (clamp default_limit max_limit limit) view
        ok (record {
          count = length found.events;
          events = found.events;
          next_cursor = found.next_cursor;
          has_more = found.has_more;
        })
