-- ===== src/Provider/Command.antt =====
-- data-provider/__main__.py, main, with data-provider/presets.py and the composition of `run` in
-- data-provider/producer.py. The arguments are what the parser makes of the command line and of the
-- environment; argparse does not check a default against `choices`.
pub mod Run
mod Tests
use radiation_tracking.Prelude.{
  ℕ, String, Bool, Option, none, some, List, [], ◌∷◌, str_eq, if◌then◌else◌,
}
use radiation_tracking.Python.{Number, Fields, Result, ok, raise, key_error, value_error, ◌>>=◌}
use radiation_tracking.Provider.Rows.{normalise_ts}
use radiation_tracking.Provider.Metrics.{new_producer_metrics}
use radiation_tracking.Provider.SensorClassifier.{Trigonometry}
use radiation_tracking.Provider.Reader.{File, stream_rows}
use radiation_tracking.Provider.Speed.{Speed, parse_speed}
use radiation_tracking.Provider.Producer.{Delivery, Producer, produce}

-- PRESETS
abbrev pub presets : List (String × (String × String))
presets = ("fukushima", ("2011-03-11T00:00:00", "2011-04-30T23:59:59")) ∷ []

-- `PRESETS[name]`
unfoldable pub preset_in : List (String × (String × String)) → String → Result (String × String)
preset_in [] name = raise key_error
preset_in ((key, window) ∷ rest) name = if str_eq key name then ok window else preset_in rest name

pub record Arguments (F : Type 0) : Type 0 where
  pub speed : String
  pub batch_size : ℕ
  pub skip_rows : ℕ
  pub movement_threshold_m : F
  pub preset : Option String
  pub start : Option String
  pub end : Option String

-- `value or default`
abbrev pub or_bound : Option String → String → String
or_bound none default = default
or_bound (some text) default = if str_eq text "" then default else text

-- `_parse_ts(value) if value else None`
unfoldable pub parsed_bound : Option String → Option String
unfolding normalise_ts
parsed_bound none = none
parsed_bound (some text) = if str_eq text "" then none else some (normalise_ts text)

abbrev with_window : Option String → Option String → String × String → Option String × Option String
with_window start end (preset_start, preset_end) =
    (some (or_bound start preset_start), some (or_bound end preset_end))

-- The bounds that `main` passes on.
unfoldable pub bounds_of :
    Option String → Option String → Option String → Result (Option String × Option String)
unfolding preset_in parsed_bound
bounds_of none start end = ok (parsed_bound start, parsed_bound end)
bounds_of (some preset) start end =
    if str_eq preset ""
    then ok (parsed_bound start, parsed_bound end)
    else preset_in presets preset >>= λ window.
        ok (with_window (parsed_bound start) (parsed_bound end) window)

-- How `main` ends: by `sys.exit(1)`, or after the run.
pub data Exit (F : Type 0) : Type 0 where
  exits : ℕ → Exit F
  finished : Producer F → Exit F

-- The variables of `run` before its loop.
abbrev pub new_producer : {F : Type 0} → Producer F
new_producer = record {
  metrics = new_producer_metrics;
  sensors = [];
  prev_uploaded_ts = none;
  attempts = 0;
  topic = [];
  slept = [];
}

module _ {F : Type 0} ⦃n : Number F⦄ (lower : String → String) (is_finite : F → Bool)
    (trig : Trigonometry F) (hexdigest : String → String)
    (parse_uploaded : Option String → Option F) (size_of : Fields F → ℕ) (deliver : ℕ → Delivery)
    (sleep : F → Result (Unit {0})) where
  -- `run` after the speed is parsed; the file exists.
  unfoldable pub run_with :
      Arguments F → File → Speed F → Option String × Option String → Result (Producer F)
  unfolding stream_rows produce
  run_with args file speed (start_ts, end_ts) =
      let produced : Result (Producer F) =
        elim (stream_rows args.batch_size args.skip_rows start_ts end_ts lower file) [
          | none ↦ raise value_error
          | some rows ↦
              produce trig args.movement_threshold_m hexdigest parse_uploaded size_of deliver speed
                sleep new_producer rows
        ] in
      -- The constructor of the classifier comes first.
      if n.le args.movement_threshold_m n.zero then raise value_error else produced

  abbrev run_at : Arguments F → File → Result (Speed F) → Result (Exit F)
  run_at args file (raise value_error) = ok (exits 1)
  run_at args file (raise x) = raise x
  run_at args file (ok speed) = do
    bounds ← bounds_of args.preset args.start args.end
    p ← run_with args file speed bounds
    ok (finished p)

  unfoldable pub main_of : Arguments F → File → Result (Exit F)
  unfolding parse_speed bounds_of run_with
  main_of args none = ok (exits 1)
  main_of args (some file) = run_at args (some file) (parse_speed lower is_finite args.speed)
