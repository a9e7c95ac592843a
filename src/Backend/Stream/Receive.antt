-- ===== src/Backend/Stream/Receive.antt =====
-- backend/app/routers/stream.py: which view a client has after its frames.
use radiation_tracking.Prelude.{
  String, ◌≡◌, refl, inl, inr, Bool, Option, none, some, List, [], ◌∷◌, if◌then◌else◌, Bool-cases,
}
use radiation_tracking.Python.{
  Number, Exception, Result, ok, raise, Result-cases, ◌>>=◌, json_decode_error, overflow_error,
  Datetime, Value, obj, Fields, get,
}
use radiation_tracking.Backend.Broadcaster.{Message, MessageKey}
use radiation_tracking.Backend.Broadcaster.Subscribers.{Subscriber, set_view_filter}
use radiation_tracking.Backend.ViewFilter.{ViewFilter, from_subscribe}
use radiation_tracking.Backend.ViewFilter.Validity.{from_subscribe_lem}
use radiation_tracking.Backend.Stream.{
  Frame, disconnect, frame, installed, apply_subscribe, is_subscribe, handle_payload, handle_frame,
  receive_loop,
}

module _ {F D : Type 0} ⦃n : Number F⦄ (t : Datetime D) (loads : String → Result (Value F)) where
  -- The view that a filter replaces, or keeps where it is not valid; OverflowError is not caught.
  abbrev pub or_kept :
      Result (ViewFilter F D)
      → Option (Message F → Result Bool)
      → Result (Option (Message F → Result Bool))
  or_kept (ok f) current = ok (installed t f)
  or_kept (raise overflow_error) current = raise overflow_error
  or_kept (raise x) current = ok current

  abbrev pub after_payload :
      Result (Value F)
      → Option (Message F → Result Bool)
      → Result (Option (Message F → Result Bool))
  after_payload (ok (obj d)) current =
      if is_subscribe (get d "type") then or_kept (from_subscribe t d) current else ok current
  after_payload _ current = ok current

  -- The view after the frames before the disconnect: that of the last valid subscribe message.
  abbrev pub view_after :
      Option (Message F → Result Bool) → List Frame → Result (Option (Message F → Result Bool))
  view_after current [] = ok current
  view_after current (disconnect ∷ rest) = ok current
  view_after current (frame none ∷ rest) = view_after current rest
  view_after current (frame (some text) ∷ rest) =
      after_payload (loads text) current >>= λ view. view_after view rest

  abbrev pub with_view :
      Subscriber (MessageKey F) (Message F)
      → Option (Message F → Result Bool)
      → Result (Subscriber (MessageKey F) (Message F))
  with_view s view = ok (set_view_filter s view)

  applied_lem :
      (s : Subscriber (MessageKey F) (Message F)) (payload : Fields F)
      → apply_subscribe t s payload
        ≡ (or_kept (from_subscribe t payload) s.view_filter >>= with_view s)
  unfolding apply_subscribe set_view_filter
  applied_lem s payload = elim (from_subscribe_lem t payload) [
    | inl (f, e, v) ↦ rw e refl
    | inr (inl e) ↦ rw e refl
    | inr (inr e) ↦ rw e refl
  ]

  payload_lem :
      (s : Subscriber (MessageKey F) (Message F)) (r : Result (Value F))
      → ((x : Exception) → r ≡ raise x → x ≡ json_decode_error)
      → handle_payload t r s ≡ (after_payload r s.view_filter >>= with_view s)
  unfolding set_view_filter
  payload_lem s (ok (obj d)) h = elim (Bool-cases (is_subscribe (get d "type"))) [
    | inl e ↦ rw e (unfold set_view_filter in applied_lem s d)
    | inr e ↦ rw e refl
  ]
  payload_lem s (ok v) h = refl
  payload_lem s (raise x) h = rw (h x refl) refl

  -- If json.loads raises nothing but JSONDecodeError, the receive loop ends in one of two ways:
  -- it raises at the first subscribe message before the disconnect on which from_subscribe raises
  -- OverflowError, and only there; or it returns, the view is that of the last valid subscribe
  -- message before the disconnect, or the one before if there is none, and nothing else of the
  -- subscriber changes.
  pub receive_loop_lem :
      (s : Subscriber (MessageKey F) (Message F)) (frames : List Frame)
      → ((text : String) (x : Exception) → loads text ≡ raise x → x ≡ json_decode_error)
      → receive_loop t loads s frames ≡ (view_after s.view_filter frames >>= with_view s)
  unfolding receive_loop handle_frame set_view_filter
  receive_loop_lem s [] h = refl
  receive_loop_lem s (disconnect ∷ rest) h = refl
  receive_loop_lem s (frame none ∷ rest) h = receive_loop_lem s rest h
  receive_loop_lem s (frame (some text) ∷ rest) h =
      rw (payload_lem s (loads text) (h text))
        (elim (Result-cases (after_payload (loads text) s.view_filter)) [
          | inl (view, e) ↦ rw e (receive_loop_lem (set_view_filter s view) rest h)
          | inr (x, e) ↦ rw e refl
        ])
