-- ===== src/Flink/Classifier/Broadcast.antt =====
-- flink-jobs/operators/classifier.py: the classes, and which thresholds an event meets.
use radiation_tracking.Prelude.{
  ℕ, String, ◌≤◌, ◌≡◌, refl, ap, true, some, List, [], ◌∷◌, arith, All,
}
use radiation_tracking.Python.{
  Number, Order, Result, ok, raise, attribute_error, overflow_error, zero_division_error, Tolerated,
  ◌>>=◌, tolerate, or_raise, Datetime, Value, Fields, get, put,
}
use radiation_tracking.Flink.Model.{ConfigUpdate, deserialize_config}
use radiation_tracking.Flink.Classifier.{
  Class, safe, warn, danger, Show, classify_cpm, classify, label_value, Thresholds, no_thresholds,
  default_warn_threshold, default_danger_threshold, threshold, classify_event, update_thresholds,
}

abbrev pub rank : Class → ℕ
rank safe = 0
rank warn = 1
rank danger = 2

-- A higher reading is never classified as less severe, whatever the thresholds.
pub classify_cpm_mono :
    {F : Type 0} ⦃n : Number F⦄ (laws : Order n) (x y warn_threshold danger_threshold : F)
    → n.le x y ≡ true
    → rank (classify_cpm x warn_threshold danger_threshold)
      ≤ rank (classify_cpm y warn_threshold danger_threshold)
unfolding classify_cpm
classify_cpm_mono laws x y w d h = ground (arith, laws.le_trans d x y, laws.le_trans w x y)

module _ {F D : Type 0} ⦃n : Number F⦄ ⦃s : Show F⦄ (t : Datetime D)
    (loads : String → Result (Value F)) where
  -- The broadcast state after a stream of messages.
  unfoldable pub updates : Thresholds → List String → Result Thresholds
  updates state [] = ok state
  updates state (message ∷ rest) = do
    next ← update_thresholds t loads state message
    updates next rest

  -- The thresholds of a message, or those before it where it is malformed.
  abbrev pub met : F × F → Result (ConfigUpdate F D) → F × F
  met now (ok config) = (config.cpm_warn_threshold, config.cpm_danger_threshold)
  met now (raise x) = now

  -- The thresholds of the last well-formed message, or those before the stream.
  abbrev pub latest : F × F → List String → F × F
  latest now [] = now
  latest now (message ∷ rest) = latest (met now (deserialize_config t loads message)) rest

  -- What `process_element` reads from a state.
  record Reads (state : Thresholds) (now : F × F) : Type 0 where
    warn_read : threshold state.warn_text default_warn_threshold ≡ ok now.0
    danger_read : threshold state.danger_text default_danger_threshold ≡ ok now.1

  -- One message: the state that it leaves, and what is read from that.
  record Stepped (state : Thresholds) (now : F × F) (message : String) : Type 0 where
    after : Thresholds
    moved : update_thresholds t loads state message ≡ ok after
    reads : Reads after (latest now (message ∷ []))

  step :
      (exact : (x : F) → n.parse (s.show x) ≡ some x) (state : Thresholds) (now : F × F)
      (message : String) (r : Result (ConfigUpdate F D))
      → deserialize_config t loads message ≡ r
      → Tolerated r
      → Reads state now
      → Stepped state now message
  unfolding update_thresholds
  step exact state now message (ok config) e h v = record {
    after = record {
      warn_text = some (s.show config.cpm_warn_threshold);
      danger_text = some (s.show config.cpm_danger_threshold);
    };
    moved = rw e (unfold tolerate in refl);
    reads = record {
      warn_read =
          unfold threshold or_raise in rw (ap (met now) e, exact config.cpm_warn_threshold) refl;
      danger_read =
          unfold threshold or_raise in rw (ap (met now) e, exact config.cpm_danger_threshold) refl;
    };
  }
  step exact state now message (raise attribute_error) e h v = absurd h
  step exact state now message (raise overflow_error) e h v = absurd h
  step exact state now message (raise zero_division_error) e h v = absurd h
  step exact state now message (raise x) e h v = record {
    after = state;
    moved = rw e (unfold tolerate in refl);
    reads = rw e v;
  }

  -- The state after the messages, and what is read from it.
  record Settled (state : Thresholds) (now : F × F) (messages : List String) : Type 0 where
    final : Thresholds
    reached : updates state messages ≡ ok final
    reads : Reads final (latest now messages)

  settle :
      (exact : (x : F) → n.parse (s.show x) ≡ some x) (state : Thresholds) (now : F × F)
      (messages : List String)
      → All (λ message. Tolerated (deserialize_config t loads message)) messages
      → Reads state now
      → Settled state now messages
  unfolding updates
  settle exact state now [] h v = record { final = state; reached = refl; reads = v }
  settle exact state now (message ∷ rest) h v =
      let one = step exact state now message (deserialize_config t loads message) refl h.0 v in
      let more = settle exact one.after (latest now (message ∷ [])) rest h.1 one.reads in
      record { final = more.final; reached = rw (one.moved) more.reached; reads = more.reads }

  -- If float reads back what str writes of a number, then after any stream of config.updates
  -- messages of which none raises AttributeError or OverflowError, which the handler does not
  -- catch, an event is classified by the thresholds of the last well-formed message, and by the
  -- defaults 100 and 1000 before the first one; a malformed message changes nothing.
  pub classify_event-updates :
      (exact : (x : F) → n.parse (s.show x) ≡ some x) (messages : List String) (event : Fields F)
      → All (λ message. Tolerated (deserialize_config t loads message)) messages
      → (do state ← updates no_thresholds messages; classify_event state event) ≡ (do
        let now = latest (default_warn_threshold, default_danger_threshold) messages
        class ← classify (get event "cpm") now.0 now.1
        ok (put event "classification" (label_value class)))
  unfolding classify_event
  classify_event-updates exact messages event h =
      let end =
        settle exact no_thresholds (default_warn_threshold, default_danger_threshold) messages h
          start in
      rw (end.reached, end.reads.warn_read, end.reads.danger_read)
    where
      start : Reads no_thresholds (default_warn_threshold, default_danger_threshold)
      start = unfold threshold in record { warn_read = refl; danger_read = refl }
