-- ===== src/Backend/Stream/SessionTests.antt =====
-- A connection among the steps of the consumer and of two other clients.
use radiation_tracking.Prelude.{◌≡◌, refl, some, none, List, [], ◌∷◌}
use radiation_tracking.Prelude.Int.{pos}
use radiation_tracking.Flink.Tests.Samples.{exact_clock}
use radiation_tracking.Backend.Broadcaster.Subscribers.{
  new_subscriber, offer, accept, enqueue, coalesce, shed, contains, supersede, without, is_full,
  filter_out, after_view,
}
use radiation_tracking.Backend.Broadcaster.{
  publish, publish_each, subscribe, unsubscribe, coalesce_key, key_in, hashed,
}
use radiation_tracking.Backend.KafkaConsumer.{
  dispatch, handle_clean, handle_alert, forward, publish_to, skip_malformed, consumed,
}
use radiation_tracking.Python.Integers.{integers}
use radiation_tracking.Python.{attribute_get, truthy, get}
use radiation_tracking.Backend.RingBuffer.{append, recent}
use radiation_tracking.Backend.KafkaConsumer.Tests.{integer_keys, codec, topics, message, start}
use radiation_tracking.Backend.Stream.Session.{
  OtherStep, SessionStep, other, handled, joined, left, flushed, received, stream, client_of,
  clean_message, other_step, other_steps, session_step,
}
use radiation_tracking.Backend.Stream.Handoff.{own, own_others, stream_lem}
use radiation_tracking.Backend.Stream.{origin_allowed, handle_frame}
use radiation_tracking.Backend.Stream.Tests.{loads}

-- An event between the subscription and the snapshot.
abbrev meanwhile : List OtherStep
meanwhile = handled (message "radiation.clean" "s1") ∷ []

-- An event during the connection, a client that comes and one that goes, a view, and a flush.
abbrev steps : List SessionStep
steps =
    other (handled (message "radiation.clean" "s1"))
    ∷ other joined
    ∷ received (some "subscribe")
    ∷ other (handled (message "radiation.alerts" "oops"))
    ∷ other (left 0)
    ∷ flushed
    ∷ []

stream_lem_example :
    let snapshot = clean_message codec "s1" ∷ [] in
    let s = own_others codec topics exact_clock loads meanwhile (new_subscriber 10 10) in
    let (sent, after) =
      stream codec exact_clock topics loads ("*" ∷ []) (pos 500) none meanwhile steps start in
    (sent ≡ some (own codec topics exact_clock loads steps (snapshot, s)).0)
    × (client_of 1 after.broadcaster.subscribers ≡ none)
unfolding origin_allowed other_steps other_step session_step dispatch handle_clean handle_alert
    forward publish_to publish publish_each offer accept enqueue coalesce shed contains supersede
    without is_full filter_out after_view append recent subscribe unsubscribe coalesce_key key_in
    hashed attribute_get truthy get skip_malformed consumed handle_frame new_subscriber
stream_lem_example =
    stream_lem codec topics exact_clock loads ("*" ∷ []) (pos 500) none meanwhile steps start refl
      (refl, tt) (refl, (tt, (tt, (refl, (refl, (tt, tt))))))
