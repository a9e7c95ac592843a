-- ===== src/Backend/RingBuffer.antt =====
-- backend/app/core/ring_buffer.py: the bounded buffer of recent clean events behind GET /recent.
-- The event type is a parameter. A coroutine here has no `await`, so a call is one step.
pub mod Append
pub mod Paging
mod Tests
use radiation_tracking.Prelude.{
  ℕ, ◌+◌, ◌-◌, Bool, true, false, Option, none, some, List, [], ◌∷◌, ◌++◌, map, ltb, length, filter,
  slice_last, if◌then◌else◌,
}
use radiation_tracking.Prelude.Int.{ℤ, pos, pos_part, ltb_ℤ, leb_ℤ}

pub record BufferedEvent (E : Type 0) : Type 0 where
  pub seq : ℕ
  pub event : E

pub record Page (E : Type 0) : Type 0 where
  pub events : List E
  pub next_cursor : Option ℕ
  pub has_more : Bool

pub record RingBuffer (E : Type 0) : Type 0 where
  pub maxsize : ℕ
  pub entries : List (BufferedEvent E)
  pub next_seq : ℕ

module _ {E : Type 0} where
  unfoldable pub init : ℕ → RingBuffer E
  init maxsize = record { maxsize = maxsize; entries = []; next_seq = 0 }

  -- `deque(maxlen=maxsize).append` discards from the left what is over `maxlen`.
  unfoldable pub append : RingBuffer E → E → RingBuffer E
  append b e = record b {
    entries = slice_last b.maxsize (b.entries ++ (record { seq = b.next_seq; event = e }) ∷ []);
    next_seq = b.next_seq + 1;
  }

  unfoldable pub recent : RingBuffer E → ℤ → List E
  recent b limit =
      if leb_ℤ limit (pos 0)
      then []
      else map (λ entry. entry.event) (slice_last (pos_part limit) b.entries)

  -- The entries that a request may return: below the cursor, and matching the view.
  unfoldable pub older : Option ℤ → List (BufferedEvent E) → List (BufferedEvent E)
  older none entries = entries
  older (some cursor) entries = filter (λ entry. ltb_ℤ (pos entry.seq) cursor) entries

  unfoldable pub matching : Option (E → Bool) → List (BufferedEvent E) → List (BufferedEvent E)
  matching none entries = entries
  matching (some matches) entries = filter (λ entry. matches entry.event) entries

  abbrev pub no_page : Page E
  no_page = record { events = []; next_cursor = none; has_more = false }

  -- The response for the window that was cut from the end of the candidates.
  unfoldable pub page_of : List (BufferedEvent E) → List (BufferedEvent E) → Page E
  page_of entries [] = no_page
  page_of entries (oldest ∷ rest) =
      let has_more = ltb (length (oldest ∷ rest)) (length entries) in
      record {
        events = map (λ entry. entry.event) (oldest ∷ rest);
        next_cursor = if has_more then some oldest.seq else none;
        has_more = has_more;
      }

  unfoldable pub page : RingBuffer E → Option ℤ → ℤ → Option (E → Bool) → Page E
  unfolding older matching page_of
  page b cursor limit matches =
      if leb_ℤ limit (pos 0)
      then no_page
      else (let entries = matching matches (older cursor b.entries) in
          page_of entries (slice_last (pos_part limit) entries))

  unfoldable pub len : RingBuffer E → ℕ
  len b = length b.entries
