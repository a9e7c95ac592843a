-- ===== src/Flink/Region/Broadcast.antt =====
-- flink-jobs/operators/region_filter.py: which area and timespan an event meets after messages.
use radiation_tracking.Prelude.{
  String, ◌≡◌, refl, ap₂, inl, inr, some, List, [], ◌∷◌, All, arith, if◌then◌else◌,
}
use radiation_tracking.Python.{
  Number, Result, ok, raise, Result-cases, attribute_error, overflow_error, zero_division_error,
  Tolerated, ◌>>=◌, tolerate, Datetime, Value, null, obj, Fields, get, attribute_get, or_else,
}
use radiation_tracking.Flink.Model.{ConfigUpdate, deserialize_config, config_from_dict}
use radiation_tracking.Flink.Region.{
  event_passes, Region, no_region, read, filter_event, checked, store, update_region,
}

module _ {F D : Type 0} ⦃n : Number F⦄ (t : Datetime D) (loads : String → Result (Value F))
    (dumps : Value F → String) where
  -- The broadcast state after a stream of messages.
  unfoldable pub updates : Region → List String → Result Region
  updates state [] = ok state
  updates state (message ∷ rest) = do
    next ← update_region t loads dumps state message
    updates next rest

  -- json.loads reads back what json.dumps writes of the message's area and timespan.
  abbrev pub ReadsBack : String → Type 0
  ReadsBack message =
      (d : Fields F)
      → loads message ≡ ok (obj d)
      → (loads (dumps (or_else (get d "area") null)) ≡ ok (or_else (get d "area") null))
        × (loads (dumps (or_else (get d "timespan") null)) ≡ ok (or_else (get d "timespan") null))

  -- The area and the timespan of a well-formed message, null where absent or empty; those before
  -- it where it is malformed.
  abbrev pub met :
      Value F × Value F → Result (ConfigUpdate F D) → Result (Value F) → Value F × Value F
  met now (ok config) (ok (obj d)) = (or_else (get d "area") null, or_else (get d "timespan") null)
  met now _ _ = now

  abbrev pub latest : Value F × Value F → List String → Value F × Value F
  latest now [] = now
  latest now (message ∷ rest) =
      latest (met now (deserialize_config t loads message) (loads message)) rest

  record Reads (state : Region) (now : Value F × Value F) : Type 0 where
    area_read : read t loads state.area_text ≡ ok now.0
    timespan_read : read t loads state.timespan_text ≡ ok now.1

  record Stepped (state : Region) (now : Value F × Value F) (message : String) : Type 0 where
    after : Region
    moved : update_region t loads dumps state message ≡ ok after
    reads : Reads after (latest now (message ∷ []))

  -- A configuration comes from an object.
  config-obj :
      (message : String) (config : ConfigUpdate F D)
      → deserialize_config t loads message ≡ ok config
      → (d : Fields F) × (loads message ≡ ok (obj d))
  unfolding deserialize_config config_from_dict attribute_get
  config-obj message config h = elim (Result-cases (loads message)) [
    | inr (x, ex) ↦ absurd (ground arith)
    | inl (obj d, e) ↦ (d, e)
    | inl (v, e) ↦ absurd (ground arith)
  ]

  step :
      (state : Region) (now : Value F × Value F) (message : String) (exact : ReadsBack message)
      (r : Result (ConfigUpdate F D))
      → deserialize_config t loads message ≡ r
      → Tolerated r
      → Reads state now
      → Stepped state now message
  unfolding update_region checked
  step state now message exact (ok config) e h v =
      let (d, ed) = config-obj message config e in
      record {
        after = record {
          area_text = some (dumps (or_else (get d "area") null));
          timespan_text = some (dumps (or_else (get d "timespan") null));
        };
        moved = rw (e, ed) (unfold tolerate store attribute_get in refl);
        reads = record {
          area_read = unfold read in rw (ap₂ (met now) e ed, (exact d ed).0) refl;
          timespan_read = unfold read in rw (ap₂ (met now) e ed, (exact d ed).1) refl;
        };
      }
  step state now message exact (raise attribute_error) e h v = absurd h
  step state now message exact (raise overflow_error) e h v = absurd h
  step state now message exact (raise zero_division_error) e h v = absurd h
  step state now message exact (raise x) e h v = record {
    after = state;
    moved = rw e (unfold tolerate store in refl);
    reads = rw e v;
  }

  record Settled (state : Region) (now : Value F × Value F) (messages : List String) : Type 0 where
    final : Region
    reached : updates state messages ≡ ok final
    reads : Reads final (latest now messages)

  settle :
      (state : Region) (now : Value F × Value F) (messages : List String)
      → All ReadsBack messages
      → All (λ message. Tolerated (deserialize_config t loads message)) messages
      → Reads state now
      → Settled state now messages
  unfolding updates
  settle state now [] exact h v = record { final = state; reached = refl; reads = v }
  settle state now (message ∷ rest) exact h v =
      let one = step state now message exact.0 (deserialize_config t loads message) refl h.0 v in
      let more = settle one.after (latest now (message ∷ [])) rest exact.1 h.1 one.reads in
      record { final = more.final; reached = rw one.moved more.reached; reads = more.reads }

  -- After any stream of config.updates messages of which none raises AttributeError or OverflowError, which the
  -- handler does not catch, and whose areas
  -- and timespans json.loads reads back from what json.dumps writes, an event is kept or dropped by the area and the timespan of
  -- the last well-formed message: neither constrains before the first, nor where it is absent or
  -- empty there. A malformed message changes nothing.
  pub filter_event-updates :
      (messages : List String) (event : Fields F)
      → All ReadsBack messages
      → All (λ message. Tolerated (deserialize_config t loads message)) messages
      → (do state ← updates no_region messages; filter_event t loads state event) ≡ (do
        let now = latest (null, null) messages
        passes ← event_passes t event now.0 now.1
        ok (if passes then event ∷ [] else []))
  unfolding filter_event
  filter_event-updates messages event exact h =
      let end = settle no_region (null, null) messages exact h start in
      rw (end.reached, end.reads.area_read, end.reads.timespan_read) refl
    where
      start : Reads no_region (null, null)
      start = unfold read in record { area_read = refl; timespan_read = refl }
