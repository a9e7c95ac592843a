-- ===== src/Provider/SensorClassifier/Own.antt =====
-- data-provider/sensor_classifier.py: a sensor's labels against its own readings.
use radiation_tracking.Prelude.{
  String, ◌≡◌, refl, ap, sym, subst, true, Option, none, some, List, [], ◌∷◌, map, arith, eq_iff,
  str_eq, if◌then◌else◌, Bool-cases, ◌⊎◌, inl, inr,
}
use radiation_tracking.Python.{Number}
use radiation_tracking.Provider.SensorClassifier.{
  Trigonometry, SensorType, fixed, mobile, SensorState, state_of, set_state, span_m, extend,
  classify_one, classify_sensor,
}

state_of-set_state :
    {F : Type 0} (j k : String) (s : SensorState F) (state : List (String × SensorState F))
    → state_of k (set_state j s state) ≡ (if str_eq j k then some s else state_of k state)
state_of-set_state j k s [] = refl
state_of-set_state j k s ((i, r) ∷ rest) =
    ground (arith, eq_iff i j, eq_iff j k, eq_iff i k, state_of-set_state j k s rest)

pub record Reading (F : Type 0) : Type 0 where
  pub sensor_id : String
  pub latitude : F
  pub longitude : F

module _ {F : Type 0} ⦃n : Number F⦄ (m : Trigonometry F) (threshold_m : F) where
  -- The labels that the sensor `k` is given in a stream.
  abbrev pub labels : String → List (String × SensorState F) → List (Reading F) → List SensorType
  labels k state [] = []
  labels k state (r ∷ rest) =
      let next = classify_sensor m threshold_m state r.sensor_id r.latitude r.longitude in
      let later = labels k next.0 rest in if str_eq r.sensor_id k then next.1 ∷ later else later

  -- The readings of the sensor `k`.
  abbrev pub own : String → List (Reading F) → List (Reading F)
  own k [] = []
  own k (r ∷ rest) = let later = own k rest in if str_eq r.sensor_id k then r ∷ later else later

  -- A sensor alone: its labels, and from the first `mobile` on only that.
  abbrev pub alone : Option (SensorState F) → List (Reading F) → List SensorType
  alone s [] = []
  alone s (r ∷ rest) =
      let next = classify_one m threshold_m s r.latitude r.longitude in
      next.1 ∷ alone (some next.0) rest

  -- Once `mobile`, only that.
  abbrev pub Sticky : List SensorType → Type 0
  Sticky [] = Unit
  Sticky (fixed ∷ rest) = Sticky rest
  Sticky (mobile ∷ rest) = rest ≡ map (λ l. mobile) rest

  labels-alone :
      (k : String) (state : List (String × SensorState F)) (readings : List (Reading F))
      → labels k state readings ≡ alone (state_of k state) (own k readings)
  unfolding classify_sensor
  labels-alone k state [] = refl
  labels-alone k state (r ∷ rest) =
      let s = (classify_one m threshold_m (state_of r.sensor_id state) r.latitude r.longitude).0 in
      let later = labels-alone k (set_state r.sensor_id s state) rest in
      elim (Bool-cases (str_eq r.sensor_id k)) [
        | inl e ↦
            let same : state_of r.sensor_id state ≡ state_of k state =
              ap (λ i. state_of i state) ((eq_iff r.sensor_id k).0 e) in
            rw (e, later, state_of-set_state r.sensor_id k s state, e, same) refl
        | inr e ↦ rw (e, later, state_of-set_state r.sensor_id k s state, e) refl
      ]

  mobile_stays :
      (s : SensorState F) (latitude longitude : F)
      → s.is_mobile ≡ true
      → classify_one m threshold_m (some s) latitude longitude ≡ (s, mobile)
  unfolding classify_one
  mobile_stays s latitude longitude h = ground (arith, h)

  alone-mobile :
      (s : SensorState F) (readings : List (Reading F))
      → s.is_mobile ≡ true
      → alone (some s) readings ≡ map (λ l. mobile) (alone (some s) readings)
  alone-mobile s [] h = refl
  alone-mobile s (r ∷ rest) h =
      rw (mobile_stays s r.latitude r.longitude h) (ap (λ l. mobile ∷ l) (alone-mobile s rest h))

  -- A step whose state is mobile exactly if its label is.
  Agrees : SensorState F × SensorType → Type 0
  Agrees next = (next.1 ≡ fixed) ⊎ ((next.1 ≡ mobile) × (next.0.is_mobile ≡ true))

  classify_one-Agrees :
      (s : Option (SensorState F)) (latitude longitude : F)
      → Agrees (classify_one m threshold_m s latitude longitude)
  unfolding classify_one Agrees
  classify_one-Agrees none latitude longitude = inl refl
  classify_one-Agrees (some s) latitude longitude = elim (Bool-cases s.is_mobile) [
    | inl e ↦ inr (ground (arith, e), ground (arith, e))
    | inr e ↦ elim (Bool-cases (n.lt threshold_m (span_m m (extend s latitude longitude)))) [
      | inl far ↦ inr (ground (arith, e, far), ground (arith, e, far))
      | inr near ↦ inl (ground (arith, e, near))
    ]
  ]

  cons-Sticky :
      (next : SensorState F × SensorType) (rest : List (Reading F))
      → Agrees next
      → Sticky (alone (some next.0) rest)
      → Sticky (next.1 ∷ alone (some next.0) rest)
  unfolding Agrees
  cons-Sticky next rest (inl e) h = rw e h
  cons-Sticky next rest (inr (e, on)) h = rw e (alone-mobile next.0 rest on)

  alone-Sticky :
      (s : Option (SensorState F)) (readings : List (Reading F)) → Sticky (alone s readings)
  alone-Sticky s [] = tt
  alone-Sticky s (r ∷ rest) =
      let next = classify_one m threshold_m s r.latitude r.longitude in
      cons-Sticky next rest (classify_one-Agrees s r.latitude r.longitude)
        (alone-Sticky (some next.0) rest)

  -- The labels of a sensor in any stream, from the empty state, are those that its own readings
  -- alone give it, whatever other sensors report between, and after the first mobile they are all
  -- mobile.
  pub labels_lem :
      (k : String) (readings : List (Reading F))
      → (labels k [] readings ≡ alone none (own k readings)) × Sticky (labels k [] readings)
  labels_lem k readings =
      let same = labels-alone k [] readings in
      (same, subst Sticky (sym same) (alone-Sticky none (own k readings)))
