-- ===== src/Backend/KafkaConsumer/Poison.antt =====
-- backend/app/core/kafka_consumer.py: a message that ends the consume loop.
use radiation_tracking.Prelude.{ℕ, String, ◌≡◌, refl, true, false, List, ◌∷◌, arith, str_eq}
use radiation_tracking.Python.{
  Number, ok, raise, Exception, attribute_error, Value, is_dict, truthy, attribute_get,
}
use radiation_tracking.Backend.Metrics.{BackendMetrics}
use radiation_tracking.Backend.Broadcaster.Subscribers.{
  KeyEq, Subscriber, hides, offer, after_view, accept,
}
use radiation_tracking.Backend.Broadcaster.{
  Message, MessageKey, Clients, message_key_eq, coalesce_key, bucket_of, publish, publish_each,
}
use radiation_tracking.Backend.KafkaConsumer.{
  Msg, Topics, Codec, World, publish_to, consumed, forward, handle_aggregated, dispatch,
  consume_loop,
}

module _ {F : Type 0} ⦃n : Number F⦄ where
  -- A JSON payload that is not an object has no `get`.
  no_get : (v : Value F) → is_dict v ≡ false → attribute_get v "geohash" ≡ raise attribute_error
  unfolding attribute_get
  no_get v h = ground arith

  aggregated_raises :
      (v : Value F)
      → is_dict v ≡ false
      → truthy v ≡ true
      → coalesce_key (record { kind = "aggregated"; payload = v }) ≡ raise attribute_error
  unfolding coalesce_key bucket_of
  aggregated_raises v d h = rw (h, no_get v d)

module _ {F : Type 0} ⦃n : Number F⦄ ⦃k : KeyEq F⦄ where
  offer-raises :
      (m : BackendMetrics) (s : Subscriber (MessageKey F) (Message F)) (x : Message F)
      (e : Exception)
      → hides s.view_filter x ≡ ok false
      → coalesce_key x ≡ raise e
      → (offer coalesce_key m s x).0 ≡ raise e
  unfolding offer after_view accept
  offer-raises m s x e shown h = rw (shown, h)

module _ {F E : Type 0} ⦃n : Number F⦄ ⦃k : KeyEq F⦄ where
  publish_to-raises :
      (w : World F E) (kind : String) (v : Value F) (handle : ℕ)
      (s : Subscriber (MessageKey F) (Message F)) (rest : Clients F) (e : Exception)
      → w.broadcaster.subscribers ≡ (handle, s) ∷ rest
      → hides s.view_filter (record { kind = kind; payload = v }) ≡ ok false
      → coalesce_key (record { kind = kind; payload = v }) ≡ raise e
      → ((publish_to w kind v).0 ≡ raise e) × ((publish_to w kind v).1.buffer ≡ w.buffer)
  unfolding publish_to publish publish_each
  publish_to-raises w kind v handle s rest e front shown h = (
    rw front (
        rw
          (offer-raises w.metrics s (record { kind = kind; payload = v }) e shown h, publish_each)),
    refl,
  )

module _ {F E : Type 0} ⦃n : Number F⦄ ⦃k : KeyEq F⦄ (codec : Codec F E) (topics : Topics) where
  -- A truthy JSON payload on the aggregated topic that is no object ends the consume loop with
  -- AttributeError when the first subscriber's view shows it, and no later message reaches the
  -- buffer.
  pub consume_loop_stops :
      (w : World F E) (msg : Msg) (later : List Msg) (v : Value F) (handle : ℕ)
      (s : Subscriber (MessageKey F) (Message F)) (rest : Clients F)
      → str_eq msg.topic topics.clean ≡ false
      → str_eq msg.topic topics.alerts ≡ false
      → str_eq msg.topic topics.aggregated ≡ true
      → codec.loads msg.value ≡ ok v
      → is_dict v ≡ false
      → truthy v ≡ true
      → w.broadcaster.subscribers ≡ (handle, s) ∷ rest
      → hides s.view_filter (record { kind = "aggregated"; payload = v }) ≡ ok false
      → ((consume_loop codec topics w (msg ∷ later)).0 ≡ raise attribute_error)
        × ((consume_loop codec topics w (msg ∷ later)).1.buffer ≡ w.buffer)
  unfolding consume_loop
  consume_loop_stops w msg later v handle s rest c a g l d t front shown =
      rw (round.0, consume_loop) (refl, round.1)
    where
      round :
          ((dispatch codec topics w msg).0 ≡ raise attribute_error)
          × ((dispatch codec topics w msg).1.buffer ≡ w.buffer)
      round =
          unfold dispatch handle_aggregated forward consumed in
          rw (c, a, g, l)
            (publish_to-raises _ "aggregated" v handle s rest attribute_error front shown
              (aggregated_raises v d t))
