-- ===== src/Provider/SensorClassifier.antt =====
-- data-provider/sensor_classifier.py: fixed and mobile sensors, by the spread of their readings. The
-- functions of Python's `math` are parameters.
pub mod Own
pub mod Tests
use radiation_tracking.Prelude.{
  ℕ, String, Bool, true, false, Option, none, some, List, [], ◌∷◌, str_eq, if◌then◌else◌,
}
use radiation_tracking.Python.{Number}

pub record Trigonometry (F : Type 0) : Type 0 where
  pub radians : F → F
  pub sin : F → F
  pub cos : F → F
  pub asin : F → F

pub data SensorType : Type 0 where
  fixed mobile : SensorType

pub record SensorState (F : Type 0) : Type 0 where
  pub min_lat : F
  pub max_lat : F
  pub min_lon : F
  pub max_lon : F
  pub is_mobile : Bool

module _ {F : Type 0} ⦃n : Number F⦄ where
  abbrev pub square : F → F
  square x = n.mul x x

  unfoldable pub haversine_m : Trigonometry F → F → F → F → F → F
  haversine_m m lat1 lon1 lat2 lon2 =
      let rlat1 = m.radians lat1 in
      let rlat2 = m.radians lat2 in
      let dlat = n.sub rlat2 rlat1 in
      let dlon = m.radians (n.sub lon2 lon1) in
      let two = n.of_ℕ 2 in
      let a =
        n.add (square (m.sin (n.div dlat two)))
          (n.mul (n.mul (m.cos rlat1) (m.cos rlat2)) (square (m.sin (n.div dlon two)))) in
      n.mul (n.mul two (n.of_ℕ 6371000)) (m.asin (n.sqrt a))

  unfoldable pub extend : SensorState F → F → F → SensorState F
  extend s lat lon = record {
    min_lat = if n.lt lat s.min_lat then lat else s.min_lat;
    max_lat =
        if n.lt lat s.min_lat then s.max_lat else if n.lt s.max_lat lat then lat else s.max_lat;
    min_lon = if n.lt lon s.min_lon then lon else s.min_lon;
    max_lon =
        if n.lt lon s.min_lon then s.max_lon else if n.lt s.max_lon lon then lon else s.max_lon;
    is_mobile = s.is_mobile;
  }

  unfoldable pub span_m : Trigonometry F → SensorState F → F
  unfolding haversine_m
  span_m m s = haversine_m m s.min_lat s.min_lon s.max_lat s.max_lon

-- `self._state.get(sensor_id)`
abbrev pub state_of : {F : Type 0} → String → List (String × SensorState F) → Option (SensorState F)
state_of k [] = none
state_of k ((j, s) ∷ rest) = let later = state_of k rest in if str_eq j k then some s else later

-- `self._state[sensor_id] = s`
abbrev pub set_state :
    {F : Type 0}
    → String
    → SensorState F
    → List (String × SensorState F)
    → List (String × SensorState F)
set_state k s [] = (k, s) ∷ []
set_state k s ((j, r) ∷ rest) =
    let later = set_state k s rest in if str_eq j k then (j, s) ∷ rest else (j, r) ∷ later

module _ {F : Type 0} ⦃n : Number F⦄ (m : Trigonometry F) (threshold_m : F) where
  -- The branches of `classify`: the sensor's state after the reading, and its label.
  unfoldable pub classify_one : Option (SensorState F) → F → F → SensorState F × SensorType
  classify_one none latitude longitude = (
    record {
      min_lat = latitude;
      max_lat = latitude;
      min_lon = longitude;
      max_lon = longitude;
      is_mobile = false;
    },
    fixed,
  )
  classify_one (some s) latitude longitude =
      let grown = extend s latitude longitude in
      if s.is_mobile
      then (s, mobile)
      else if n.lt threshold_m (span_m m grown)
      then (record grown { is_mobile = true }, mobile)
      else (grown, fixed)

  -- SensorClassifier.classify
  unfoldable pub classify_sensor :
      List (String × SensorState F) → String → F → F → List (String × SensorState F) × SensorType
  unfolding classify_one
  classify_sensor state sensor_id latitude longitude =
      let (s, sensor_type) = classify_one (state_of sensor_id state) latitude longitude in
      (set_state sensor_id s state, sensor_type)
