-- ===== src/Provider/Producer/Counts.antt =====
-- What a delivery counts for, and what a message carries.
use radiation_tracking.Prelude.{
  ℕ, suc, ◌+◌, ◌≡◌, refl, sym, ap, inl, inr, String, true, false, Option, none, some, List, [], ◌∷◌,
  ◌++◌, append-nil, append_assoc, length, arith, str_eq, Bool-cases,
}
use radiation_tracking.Python.{Number, Value, str, Fields, end, field, get, index, is_none, ok}
use radiation_tracking.Provider.Rows.{CsvRow}
use radiation_tracking.Provider.Mapper.{row_to_event}
use radiation_tracking.Provider.Metrics.{ProducerMetrics}
use radiation_tracking.Provider.Producer.{Delivery, refused, delivered, failed, send_event}

module _ {F : Type 0} where
  pub index-get :
      (d : Fields F) (k : String) (v : Value F) → get d k ≡ v → is_none v ≡ false → index d k ≡ ok v
  unfolding get index
  index-get end k v h e = absurd (ground arith)
  index-get (field j w d) k v h e = elim (Bool-cases (str_eq j k)) [
    | inl same ↦ let found : w ≡ v = rw same at h in rw same (ap ok found)
    | inr other ↦ rw other (index-get d k v (rw other at h) e)
  ]

  -- A message carries an event: keyed by its sensor, and with one field more, the sensor's sensor_label.
  abbrev pub Carries : Fields F → String × Fields F → Type 0
  Carries event message =
      (get event "sensor_id" ≡ str message.0)
      × ((k : String) → str_eq "sensor_type" k ≡ false → get message.1 k ≡ get event k)

  abbrev pub CarriesEach : List (Fields F) → List (String × Fields F) → Type 0
  CarriesEach [] [] = Unit
  CarriesEach (e ∷ events) (m ∷ messages) = Carries e m × CarriesEach events messages
  CarriesEach _ _ = ⊥

  pub CarriesEach-append :
      (es fs : List (Fields F)) (ms ns : List (String × Fields F))
      → CarriesEach es ms
      → CarriesEach fs ns
      → CarriesEach (es ++ fs) (ms ++ ns)
  CarriesEach-append [] fs [] ns h k = k
  CarriesEach-append (e ∷ es) fs (m ∷ ms) ns h k = (h.0, CarriesEach-append es fs ms ns h.1 k)
  CarriesEach-append [] fs (m ∷ ms) ns h k = absurd h
  CarriesEach-append (e ∷ es) fs [] ns h k = absurd h

module _ {F : Type 0} ⦃n : Number F⦄ (hexdigest : String → String) where
  abbrev pub event_if : Option (Fields F) → List (Fields F)
  event_if none = []
  event_if (some event) = event ∷ []

  -- The events of the rows that are not discarded.
  abbrev pub events_of : List CsvRow → List (Fields F)
  events_of [] = []
  events_of (row ∷ rows) = event_if (row_to_event hexdigest row) ++ events_of rows

-- Whether a send_event counts as sent, and as an error.
abbrev pub accepts : Delivery → ℕ
accepts (refused serialized) = 0
accepts _ = 1

abbrev pub fails : Delivery → ℕ
fails delivered = 0
fails _ = 1

module _ {F : Type 0} (deliver : ℕ → Delivery) where
  abbrev pub total : (Delivery → ℕ) → ℕ → List (Fields F) → ℕ
  total count attempts [] = 0
  total count attempts (e ∷ events) = count (deliver attempts) + total count (attempts + 1) events

  abbrev pub event_when : Delivery → Fields F → List (Fields F)
  event_when delivered event = event ∷ []
  event_when _ event = []

  -- The events that are acknowledged.
  abbrev pub acknowledged : ℕ → List (Fields F) → List (Fields F)
  acknowledged attempts [] = []
  acknowledged attempts (e ∷ events) =
      event_when (deliver attempts) e ++ acknowledged (attempts + 1) events

  pub total-append :
      (count : Delivery → ℕ) (attempts : ℕ) (es fs : List (Fields F))
      → total count attempts (es ++ fs)
        ≡ total count attempts es + total count (attempts + length es) fs
  total-append count attempts [] fs =
      let e : attempts + 0 ≡ attempts = omega arith in rw e (omega arith)
  total-append count attempts (x ∷ es) fs =
      let e : attempts + suc (length es) ≡ attempts + 1 + length es = omega arith in
      rw e (omega (arith, total-append count (attempts + 1) es fs))

  pub acknowledged-append :
      (attempts : ℕ) (es fs : List (Fields F))
      → acknowledged attempts (es ++ fs)
        ≡ acknowledged attempts es ++ acknowledged (attempts + length es) fs
  acknowledged-append attempts [] fs = let e : attempts + 0 ≡ attempts = omega arith in rw e refl
  acknowledged-append attempts (x ∷ es) fs =
      let e : attempts + suc (length es) ≡ attempts + 1 + length es = omega arith in
      rw (e, acknowledged-append (attempts + 1) es fs)
        (sym (append_assoc (event_when (deliver attempts) x) (acknowledged (attempts + 1) es) _))

  pub send_event_lem :
      (size : ℕ) (uploaded_ts : Option F) (d : Delivery) (event : Fields F)
      (message : String × Fields F) (metrics : ProducerMetrics F) (topic : List (String × Fields F))
      → Carries event message
      → let (metrics', topic') = send_event size uploaded_ts d message (metrics, topic) in
        (metrics'.sent ≡ metrics.sent + accepts d)
        × (metrics'.errors ≡ metrics.errors + fails d)
        × (metrics'.discarded ≡ metrics.discarded)
        × ((ms : List (String × Fields F)) × (topic' ≡ topic ++ ms)
            × CarriesEach (event_when d event) ms)
  unfolding send_event
  send_event_lem size uploaded_ts (refused true) event message metrics topic h =
      (omega arith, omega arith, refl, ([], sym (append-nil topic), tt))
  send_event_lem size uploaded_ts (refused false) event message metrics topic h =
      (omega arith, omega arith, refl, ([], sym (append-nil topic), tt))
  send_event_lem size uploaded_ts delivered event message metrics topic h =
      (omega arith, omega arith, refl, (message ∷ [], refl, (h, tt)))
  send_event_lem size uploaded_ts failed event message metrics topic h =
      (omega arith, omega arith, refl, ([], sym (append-nil topic), tt))
