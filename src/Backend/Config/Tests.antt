-- ===== src/Backend/Config/Tests.antt =====
-- Writes of the settings on concrete requests.
use radiation_tracking.Prelude.{String, ◌⊎◌, Bool, true, false, none, some, List, [], ◌∷◌}
use radiation_tracking.Prelude.Int.{ℤ, pos}
use radiation_tracking.Python.{Result, ok, Value, Fields, obj}
use radiation_tracking.Flink.Tests.Samples.{read_integers, exact_clock}
use radiation_tracking.Backend.Metrics.{new_metrics}
use radiation_tracking.Backend.Config.{
  ConfigPayload, ConfigState, acknowledged, ack_lost, not_written, model_dump, post_config,
}
use radiation_tracking.Backend.Config.Writes.{Committed, Refused, post_config_lem}
use radiation_tracking.Backend.Config.Agreement.{Event, write, start, stop, next, run}

abbrev first : ConfigState ℤ ℤ
first = record {
  active = record {
    cpm_warn_threshold = pos 100;
    cpm_danger_threshold = pos 1000;
    area = none;
    timespan = none;
  };
  producer = record {
    available = false;
    status = "stopped";
    published = [];
    metrics = new_metrics;
  };
}

-- Every header is ASCII.
abbrev ascii : String → Bool
ascii s = true

abbrev raise_warn : ℤ → ConfigPayload ℤ ℤ
raise_warn warn = record {
  cpm_warn_threshold = some warn;
  cpm_danger_threshold = none;
  area = some (record { min_lat = pos 50; max_lat = pos 60; min_lon = pos 20; max_lon = pos 30 });
  timespan = some (record { start = pos 1; stop = pos 2 });
}

abbrev events : List (Event ℤ ℤ)
events =
    start true true
    ∷ write (some "secret") acknowledged (raise_warn (pos 200))
    ∷ write none acknowledged (raise_warn (pos 300))
    ∷ write (some "secret") not_written (raise_warn (pos 400))
    ∷ write (some "secret") ack_lost (raise_warn (pos 500))
    ∷ stop
    ∷ []

-- The settings' text stands for the settings in the end.
abbrev dumps : Fields ℤ → String
dumps d = "settings"

abbrev loads : String → Result (Value ℤ)
loads s =
    ok (
      obj
        (model_dump exact_clock (run exact_clock dumps ascii (some "secret") first events).active))

abbrev started : ConfigState ℤ ℤ
started = next exact_clock dumps ascii (some "secret") first (start true true)

post_config_lem_example :
    let r =
      post_config exact_clock dumps ascii
        (some "secret")
        (some "secret")
        ack_lost
        started
        (raise_warn (pos 200)) in
    Committed exact_clock dumps ascii
      (some "secret")
      (some "secret")
      ack_lost
      started
      (raise_warn (pos 200))
      r
    ⊎ Refused exact_clock dumps ascii
        (some "secret")
        (some "secret")
        ack_lost
        started
        (raise_warn (pos 200))
        r
post_config_lem_example =
    post_config_lem exact_clock dumps ascii (some "secret") (some "secret") ack_lost started
      (raise_warn (pos 200))
