-- ===== src/Backend/Stream.antt =====
-- backend/app/routers/stream.py: the frames that a client of /ws/stream sends. `json.loads` is the
-- parameter `loads`.
pub mod Receive
pub mod Session
pub mod Published
pub mod Handoff
mod SessionTests
pub mod Tests
use radiation_tracking.Prelude.{
  ℕ, String, Bool, true, false, not, ◌&&◌, ◌||◌, Option, none, some, List, [], ◌∷◌, str_eq,
  if◌then◌else◌,
}
use radiation_tracking.Python.{
  Number, Result, ok, raise, value_error, json_decode_error, ◌>>=◌, Datetime, Value, str, obj,
  Fields, get,
}
use radiation_tracking.Backend.Broadcaster.{Message, MessageKey}
use radiation_tracking.Backend.Broadcaster.Subscribers.{Subscriber, set_view_filter}
use radiation_tracking.Backend.ViewFilter.{ViewFilter, from_subscribe, matches_message}

-- `origin in allowed`
abbrev pub is_listed : String → List String → Bool
is_listed origin [] = false
is_listed origin (x ∷ xs) = str_eq x origin || is_listed origin xs

unfoldable pub origin_allowed : List String → Option String → Bool
origin_allowed allowed none = true
origin_allowed allowed (some origin) = is_listed "*" allowed || is_listed origin allowed

abbrev pub has_bound {ℓ} : {A : Type ℓ} → Option A → Bool
has_bound none = false
has_bound (some x) = true

-- What `websocket.receive` gives: the disconnect, or a frame with its text, if it has one.
pub data Frame : Type 0 where
  disconnect : Frame
  frame : Option String → Frame

-- `isinstance(payload, dict) and payload.get("type") == "subscribe"`
abbrev pub is_subscribe : {F : Type 0} → Value F → Bool
is_subscribe (str s) = str_eq s "subscribe"
is_subscribe _ = false

module _ {F D : Type 0} ⦃n : Number F⦄ (t : Datetime D) where
  unfoldable pub is_noop : ViewFilter F D → Bool
  is_noop f = not (has_bound f.min_lat || has_bound f.from)

  -- The predicate that a filter installs: none where it has no rule.
  abbrev pub installed : ViewFilter F D → Option (Message F → Result Bool)
  installed f = if is_noop f then none else some (matches_message t f)

  -- The view after a subscribe message, from what from_subscribe gives.
  abbrev pub applied :
      Result (ViewFilter F D)
      → Subscriber (MessageKey F) (Message F)
      → Result (Subscriber (MessageKey F) (Message F))
  applied (ok f) s = ok (set_view_filter s (installed f))
  applied (raise value_error) s = ok s
  applied (raise x) s = raise x

  -- _apply_subscribe
  unfoldable pub apply_subscribe :
      Subscriber (MessageKey F) (Message F)
      → Fields F
      → Result (Subscriber (MessageKey F) (Message F))
  apply_subscribe s payload = applied (from_subscribe t payload) s

  abbrev pub handle_payload :
      Result (Value F)
      → Subscriber (MessageKey F) (Message F)
      → Result (Subscriber (MessageKey F) (Message F))
  handle_payload (ok (obj d)) s = if is_subscribe (get d "type") then apply_subscribe s d else ok s
  handle_payload (ok v) s = ok s
  handle_payload (raise json_decode_error) s = ok s
  handle_payload (raise x) s = raise x

  -- One round of the loop on a frame that is no disconnect.
  unfoldable pub handle_frame :
      (String → Result (Value F))
      → Subscriber (MessageKey F) (Message F)
      → Option String
      → Result (Subscriber (MessageKey F) (Message F))
  handle_frame loads s none = ok s
  handle_frame loads s (some text) = handle_payload (loads text) s

  -- _receive_loop, over the frames that arrive: it returns at a disconnect.
  unfoldable pub receive_loop :
      (String → Result (Value F))
      → Subscriber (MessageKey F) (Message F)
      → List Frame
      → Result (Subscriber (MessageKey F) (Message F))
  unfolding handle_frame
  receive_loop loads s [] = ok s
  receive_loop loads s (disconnect ∷ rest) = ok s
  receive_loop loads s (frame text ∷ rest) = do
    next ← handle_frame loads s text
    receive_loop loads next rest
