-- ===== src/Backend/Broadcaster/Subscribers.antt =====
-- backend/app/core/broadcaster.py, class Subscriber: one client's pending messages, in a FIFO lane
-- and a lane that keeps the latest message of each key. Keys and messages are any types.
pub mod Accounts
pub mod Lanes
pub mod Bounds
pub mod Delivery
use radiation_tracking.Prelude.{
  ℕ, ◌+◌, ◌≡◌, refl, ◌↔◌, ◌⊎◌, inl, inr, Bool, true, false, not, ◌&&◌, Option, none, some, List, [],
  ◌∷◌, ◌++◌, map, ltb, leb, length, if◌then◌else◌,
}
use radiation_tracking.Python.{Exception, Result, ok, raise, ◌>>=◌}
use radiation_tracking.Backend.Metrics.{BackendMetrics, record_ws_coalesced, record_ws_dropped}

-- Keys that can be compared.
pub record KeyEq (K : Type 0) : Type 0 where
  pub beq : K → K → Bool
  pub beq_iff : (a b : K) → (beq a b ≡ true) ↔ (a ≡ b)

-- `_coalesced` is an OrderedDict, oldest update first. `_ready` is the asyncio.Event.
pub record Subscriber (K M : Type 0) : Type 0 where
  pub max_pending : ℕ
  pub coalesced_max : ℕ
  pub coalesced : List (K × M)
  pub fifo : List M
  pub ready : Bool
  pub coalesced_count : ℕ
  pub dropped_count : ℕ
  pub filtered_count : ℕ
  pub view_filter : Option (M → Result Bool)

module _ {K M : Type 0} where
  unfoldable pub new_subscriber : ℕ → ℕ → Subscriber K M
  new_subscriber max_pending coalesced_max = record {
    max_pending = max_pending;
    coalesced_max = coalesced_max;
    coalesced = [];
    fifo = [];
    ready = false;
    coalesced_count = 0;
    dropped_count = 0;
    filtered_count = 0;
    view_filter = none;
  }

  unfoldable pub set_view_filter : Subscriber K M → Option (M → Result Bool) → Subscriber K M
  set_view_filter s view_filter = record s { view_filter = view_filter }

-- One `record_ws_dropped` for each message that is shed.
unfoldable pub record_drops : BackendMetrics → ℕ → BackendMetrics
record_drops m n = record m { ws_dropped = m.ws_dropped + n }

module _ {M : Type 0} where
  -- Whether the client's view hides the message, or what the view raises.
  abbrev pub hides : Option (M → Result Bool) → M → Result Bool
  hides none message = ok false
  hides (some matches) message = matches message >>= λ shown. ok (not shown)

  -- `while len(fifo) > max_pending: fifo.popleft()`, with the number of rounds.
  unfoldable pub shed : ℕ → List M → List M × ℕ
  shed most [] = ([], 0)
  shed most (x ∷ xs) =
      let rest = shed most xs in
      if ltb most (length (x ∷ xs)) then (rest.0, rest.1 + 1) else (x ∷ xs, 0)

module _ {K M : Type 0} where
  -- The FIFO branch of `offer`.
  unfoldable pub enqueue : BackendMetrics → Subscriber K M → M → BackendMetrics × Subscriber K M
  enqueue metrics s message =
      let (kept, dropped) = shed s.max_pending (s.fifo ++ message ∷ []) in
      (
        record_drops metrics dropped,
        record s { fifo = kept; dropped_count = s.dropped_count + dropped; ready = true },
      )

  -- `not self._coalesced`
  abbrev pub is_empty : List (K × M) → Bool
  is_empty [] = true
  is_empty (x ∷ xs) = false

  -- `popitem(last=False)`
  abbrev pub popitem : List (K × M) → List (K × M)
  popitem [] = []
  popitem (x ∷ xs) = xs

  -- The test of the coalescing lane's safety valve.
  unfoldable pub is_full : Subscriber K M → Bool
  is_full s = leb s.coalesced_max (length s.coalesced) && not (is_empty s.coalesced)

module _ {K M : Type 0} ⦃e : KeyEq K⦄ where
  -- `key in d`
  unfoldable pub contains : List (K × M) → K → Bool
  contains [] key = false
  contains ((k, m) ∷ d) key = if e.beq k key then true else contains d key

  unfoldable pub without : List (K × M) → K → List (K × M)
  without [] key = []
  without ((k, m) ∷ d) key = let rest = without d key in if e.beq k key then d else (k, m) ∷ rest

  -- `d[key] = message; d.move_to_end(key)`
  unfoldable pub supersede : List (K × M) → K → M → List (K × M)
  supersede d key message = without d key ++ (key, message) ∷ []

  -- The coalescing branch of `offer`.
  unfoldable pub coalesce :
      BackendMetrics → Subscriber K M → K → M → BackendMetrics × Subscriber K M
  coalesce metrics s key message =
      if contains s.coalesced key
      then (
        record_ws_coalesced metrics,
        record s {
          coalesced = supersede s.coalesced key message;
          coalesced_count = s.coalesced_count + 1;
          ready = true;
        },
      )
      else if is_full s
      then (
        record_ws_dropped metrics,
        record s {
          coalesced = popitem s.coalesced ++ (key, message) ∷ [];
          dropped_count = s.dropped_count + 1;
          ready = true;
        },
      )
      else (metrics, record s { coalesced = s.coalesced ++ (key, message) ∷ []; ready = true })

module _ {K M : Type 0} where
  -- What `offer` does with a message that the view hides.
  unfoldable pub filter_out : Subscriber K M → Subscriber K M
  filter_out s = record s { filtered_count = s.filtered_count + 1 }

  -- The batch, FIFO lane first, and the emptied buffer.
  unfoldable pub drain : Subscriber K M → List M × Subscriber K M
  drain s = (
    s.fifo ++ map (λ (entry : K × M). entry.1) s.coalesced,
    record s { coalesced = []; fifo = []; ready = false },
  )

module _ {K M : Type 0} ⦃e : KeyEq K⦄ where
  -- The branches of `offer` on the coalescing key. An exception leaves the buffer as it was.
  unfoldable pub accept :
      Result (Option K)
      → BackendMetrics
      → Subscriber K M
      → M
      → Result (Unit {0}) × BackendMetrics × Subscriber K M
  accept (raise x) metrics s message = (raise x, metrics, s)
  accept (ok none) metrics s message = let (m, t) = enqueue metrics s message in (ok tt, m, t)
  accept (ok (some key)) metrics s message =
      let (m, t) = coalesce metrics s key message in (ok tt, m, t)

module _ {K M : Type 0} ⦃e : KeyEq K⦄ where
  -- The branches of `offer` on the view. An exception leaves the buffer as it was.
  unfoldable pub after_view :
      Result Bool
      → Result (Option K)
      → BackendMetrics
      → Subscriber K M
      → M
      → Result (Unit {0}) × BackendMetrics × Subscriber K M
  unfolding accept
  after_view (raise x) key metrics s message = (raise x, metrics, s)
  after_view (ok true) key metrics s message = (ok tt, metrics, filter_out s)
  after_view (ok false) key metrics s message = accept key metrics s message

-- `_coalesce_key` is the parameter, which may raise.
module _ {K M : Type 0} ⦃e : KeyEq K⦄ (key_of : M → Result (Option K)) where
  unfoldable pub offer :
      BackendMetrics → Subscriber K M → M → Result (Unit {0}) × BackendMetrics × Subscriber K M
  unfolding after_view
  offer metrics s message =
      after_view (hides s.view_filter message) (key_of message) metrics s message

pub view-cases :
    (r : Result Bool) → (r ≡ ok true) ⊎ ((r ≡ ok false) ⊎ ((x : Exception) × (r ≡ raise x)))
view-cases (ok true) = inl refl
view-cases (ok false) = inr (inl refl)
view-cases (raise x) = inr (inr (x, refl))
