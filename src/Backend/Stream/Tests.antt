-- ===== src/Backend/Stream/Tests.antt =====
-- A client's frames on concrete texts.
use radiation_tracking.Prelude.{
  String, ◌≡◌, some, none, [], ◌∷◌, List, str_eq, if◌then◌else◌, arith,
}
use radiation_tracking.Prelude.Int.{ℤ, pos}
use radiation_tracking.Python.{
  Exception, Result, ok, raise, ◌>>=◌, json_decode_error, Value, null, obj, str, field, end, num,
}
use radiation_tracking.Flink.Tests.Samples.{read_integers, exact_clock}
use radiation_tracking.Backend.Broadcaster.{Message, MessageKey}
use radiation_tracking.Backend.Broadcaster.Subscribers.{Subscriber, new_subscriber}
use radiation_tracking.Backend.Stream.{Frame, frame, disconnect, receive_loop}
use radiation_tracking.Backend.Stream.Receive.{view_after, with_view, receive_loop_lem}

abbrev pub loads : String → Result (Value ℤ)
loads s =
    if str_eq s "subscribe"
    then ok (
        obj (
          field "type" (str "subscribe") (
            field "area"
              (obj (
                field "min_lat" (num (pos 50)) (
                  field "max_lat" (num (pos 60))
                    (field "min_lon" (num (pos 20)) (field "max_lon" (num (pos 30)) end)))))
              end)))
    else if str_eq s "null"
    then ok null
    else raise json_decode_error

abbrev frames : List Frame
frames =
    frame (some "oops")
    ∷ frame (some "subscribe")
    ∷ frame none
    ∷ frame (some "null")
    ∷ disconnect
    ∷ []

abbrev client : Subscriber (MessageKey ℤ) (Message ℤ)
client = new_subscriber 10 10

tame : (text : String) (x : Exception) → loads text ≡ raise x → x ≡ json_decode_error
tame text x h = ground (arith, h)

receive_loop_lem_example : receive_loop exact_clock loads client frames ≡ (
    view_after exact_clock loads client.view_filter frames >>= with_view exact_clock loads client)
receive_loop_lem_example = receive_loop_lem exact_clock loads client frames tame
