-- ===== src/Backend/Config/Agreement.antt =====
-- backend/app/routers/config.py against flink-jobs/model/config_update.py: the settings that the
-- backend holds and those that the Flink job reads from config.updates.
use radiation_tracking.Prelude.{
  ℕ, suc, ◌≤◌, arith, subst, sym, true, false, String, ◌≡◌, refl, ◌⊎◌, inl, inr, Bool, Option, none,
  some, List, [], ◌∷◌, ◌++◌, length,
}
use radiation_tracking.Python.{
  Result, raise, Number, ok, Datetime, num, obj, Fields, get, has, item, index, attribute_get,
  truthy, to_float, or_raise,
}
use radiation_tracking.Flink.Model.{
  ConfigUpdate, Area, config_from_dict, area_of, timespan_of, if_truthy, from_iso_value,
}
use radiation_tracking.Backend.Config.{
  or_current_option, area_check, span_check, payload_status, validate_payload, merge, AreaFilter,
  TimespanFilter, ConfigPayload, ConfigResponse, model_dump, start_producer, stop_producer,
  ConfigState, post_config, Answer, ack_lost,
}
use radiation_tracking.Backend.Config.Writes.{post_config_lem}

abbrev pub area_view : {F : Type 0} → AreaFilter F → Area F
area_view a = record {
  min_lat = num a.min_lat;
  max_lat = num a.max_lat;
  min_lon = num a.min_lon;
  max_lon = num a.max_lon;
}

abbrev pub optional_view {ℓ κ} : {A : Type ℓ} {B : Type κ} → (A → B) → Option A → Option B
optional_view f none = none
optional_view f (some x) = some (f x)

module _ {F D : Type 0} where
  -- The settings as the Flink job holds them.
  abbrev pub view : ConfigResponse F D → ConfigUpdate F D
  view c = record {
    cpm_warn_threshold = c.cpm_warn_threshold;
    cpm_danger_threshold = c.cpm_danger_threshold;
    area = optional_view area_view c.area;
    timespan = optional_view (λ s. record { start = s.start; stop = s.stop }) c.timespan;
  }

module _ {F D : Type 0} ⦃n : Number F⦄ (t : Datetime D)
    (exact : (d : D) → t.fromisoformat (t.isoformat d) ≡ some d) where
  read_back :
      (warn danger : F) (area : Option (AreaFilter F)) (timespan : Option (TimespanFilter D))
      (c : ConfigResponse F D)
      → n.fits warn ≡ true
      → n.fits danger ≡ true
      → c ≡ record {
        cpm_warn_threshold = warn;
        cpm_danger_threshold = danger;
        area = area;
        timespan = timespan;
      }
      → config_from_dict ⦃t = t⦄ (obj (model_dump t c)) ≡ ok (view c)
  unfolding config_from_dict model_dump attribute_get item index get if_truthy truthy to_float
      area_of has timespan_of from_iso_value or_raise
  read_back warn danger none none c wf df e = rw (e, wf, df) refl
  read_back warn danger (some a) none c wf df e = rw (e, wf, df) refl
  read_back warn danger none (some s) c wf df e = rw (e, wf, df, exact s.start, exact s.stop) refl
  read_back warn danger (some a) (some s) c wf df e =
      rw (e, wf, df, exact s.start, exact s.stop) refl

  -- The settings that the backend publishes are read back by the job as they are.
  pub config_from_dict-model_dump :
      (c : ConfigResponse F D)
      → n.fits c.cpm_warn_threshold ≡ true
      → n.fits c.cpm_danger_threshold ≡ true
      → config_from_dict ⦃t = t⦄ (obj (model_dump t c)) ≡ ok (view c)
  config_from_dict-model_dump c warn_fits danger_fits =
      read_back c.cpm_warn_threshold c.cpm_danger_threshold c.area c.timespan c warn_fits
        danger_fits refl

payload_lem :
    (r : Result (Unit {0})) (b : Bool) → payload_status r b ≡ none → (r ≡ ok tt) × (b ≡ true)
payload_lem (ok tt) true h = (refl, refl)
payload_lem (ok tt) false h = absurd (ground arith)
payload_lem (raise x) b h = absurd (ground arith)

module _ {F D : Type 0} ⦃n : Number F⦄ (t : Datetime D) where
  -- The warning threshold is below the danger threshold, the area has bounds in range and in order,
  -- and the timespan starts before it ends.
  abbrev pub IsValid : ConfigResponse F D → Type 0
  IsValid c =
      (n.le c.cpm_danger_threshold c.cpm_warn_threshold ≡ false)
      × (area_check c.area ≡ true)
      × (span_check t c.timespan ≡ ok tt)

  merge-IsValid :
      (c : ConfigResponse F D) (payload : ConfigPayload F D)
      → validate_payload t payload ≡ none
      → n.le (merge c payload).cpm_danger_threshold (merge c payload).cpm_warn_threshold ≡ false
      → IsValid c
      → IsValid (merge c payload)
  unfolding validate_payload merge
  merge-IsValid c payload hv ho h =
      let checks = payload_lem _ _ hv in
      (
        ho,
        kept_area payload.area c.area (ground (arith, checks.1)) h.1,
        kept_span payload.timespan c.timespan checks.0 h.2,
      )
    where
      kept_area :
          (new old : Option (AreaFilter F))
          → area_check new ≡ true
          → area_check old ≡ true
          → area_check (or_current_option new old) ≡ true
      kept_area none old a b = b
      kept_area (some x) old a b = a

      kept_span :
          (new old : Option (TimespanFilter D))
          → span_check t new ≡ ok tt
          → span_check t old ≡ ok tt
          → span_check t (or_current_option new old) ≡ ok tt
      kept_span none old a b = b
      kept_span (some x) old a b = a

-- What happens to the settings: a write with its header and the broker's answer, or the producer is
-- started or stopped.
pub data Event (F D : Type 0) : Type 0 where
  write : Option String → Answer → ConfigPayload F D → Event F D
  start : Bool → Bool → Event F D
  stop : Event F D

-- How many writes lose their acknowledgement.
abbrev pub losses : {F D : Type 0} → List (Event F D) → ℕ
losses [] = 0
losses (write header ack_lost payload ∷ rest) = suc (losses rest)
losses (event ∷ rest) = losses rest

module _ {F D : Type 0} ⦃n : Number F⦄ (t : Datetime D) (dumps : Fields F → String)
    (ascii : String → Bool) (expected : Option String) where
  abbrev pub next : ConfigState F D → Event F D → ConfigState F D
  next s (write header answer payload) =
      let r = post_config t dumps ascii expected header answer s payload in r.1
  next s (start enabled reachable) = record s {
    producer = start_producer enabled reachable s.producer;
  }
  next s stop = record s { producer = stop_producer s.producer }

  abbrev pub run : ConfigState F D → List (Event F D) → ConfigState F D
  run s [] = s
  run s (event ∷ rest) = run (next s event) rest

  -- The messages on the topic, of which those after the last that was accepted are `lost`.
  abbrev Topic : ConfigResponse F D → ConfigState F D → List String → Type 0
  Topic first s lost =
      ((s.producer.published ≡ lost) × (s.active ≡ first))
      ⊎ ((earlier : List String) × (s.producer.published
            ≡ earlier ++ dumps (model_dump t s.active) ∷ lost))

  -- At most `bound` messages are lost.
  record Bounded (first : ConfigResponse F D) (s : ConfigState F D) (bound : ℕ) : Type 0 where
    lost : List String
    fits : length lost ≤ bound
    topic : Topic first s lost

  next-IsValid :
      (s : ConfigState F D) (event : Event F D)
      → IsValid t s.active
      → IsValid t (next s event).active
  next-IsValid s (write header answer payload) h =
      elim (post_config_lem t dumps ascii expected header answer s payload) [
        | inl c ↦
            subst (IsValid t) (sym c.active)
              (merge-IsValid t s.active payload c.passes.valid c.passes.ordered h)
        | inr r ↦ subst (IsValid t) (sym r.active) h
      ]
  next-IsValid s (start enabled reachable) h = h
  next-IsValid s stop h = h

  -- If the settings are valid at the start, they stay so over any writes, starts and stops: the
  -- warning threshold below the danger threshold, the area in range and in order, the timespan in
  -- order.
  pub run-IsValid :
      (s : ConfigState F D) (events : List (Event F D))
      → IsValid t s.active
      → IsValid t (run s events).active
  run-IsValid s [] h = h
  run-IsValid s (event ∷ rest) h = run-IsValid (next s event) rest (next-IsValid s event h)
