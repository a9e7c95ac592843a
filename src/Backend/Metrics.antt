-- ===== src/Backend/Metrics.antt =====
-- backend/app/core/metrics.py: the plain counters of BackendMetrics. The Prometheus mirrors repeat
-- each increment outside the program and are left out.
use radiation_tracking.Prelude.{
  ℕ, ◌+◌, String, ◌≡◌, List, [], ◌∷◌, arith, eq_iff, str_eq, if◌then◌else◌,
}

-- A `dict[str, int]`; `count_of d s` is `d.get(s, 0)`.
abbrev pub Counters : Type 0
Counters = List (String × ℕ)

unfoldable pub count_of : Counters → String → ℕ
count_of [] s = 0
count_of ((t, n) ∷ d) s = if str_eq t s then n else count_of d s

-- `d[s] = d.get(s, 0) + 1`
unfoldable pub increment : Counters → String → Counters
increment [] s = (s, 1) ∷ []
increment ((t, n) ∷ d) s = if str_eq t s then (t, n + 1) ∷ d else (t, n) ∷ increment d s

pub record BackendMetrics : Type 0 where
  pub consumed : Counters
  pub malformed : Counters
  pub ws_coalesced : ℕ
  pub ws_dropped : ℕ
  pub config_publishes : ℕ
  pub config_publish_failures : ℕ
  pub ws_clients : ℕ
  pub ring_buffer_size : ℕ

abbrev streams_at_zero : Counters
streams_at_zero = ("clean", 0) ∷ ("alerts", 0) ∷ ("aggregated", 0) ∷ []

abbrev pub new_metrics : BackendMetrics
new_metrics = record {
  consumed = streams_at_zero;
  malformed = streams_at_zero;
  ws_coalesced = 0;
  ws_dropped = 0;
  config_publishes = 0;
  config_publish_failures = 0;
  ws_clients = 0;
  ring_buffer_size = 0;
}

unfoldable pub record_consumed : BackendMetrics → String → BackendMetrics
record_consumed m stream = record m { consumed = increment m.consumed stream }

unfoldable pub record_malformed : BackendMetrics → String → BackendMetrics
record_malformed m stream = record m { malformed = increment m.malformed stream }

unfoldable pub record_ws_coalesced : BackendMetrics → BackendMetrics
record_ws_coalesced m = record m { ws_coalesced = m.ws_coalesced + 1 }

unfoldable pub record_ws_dropped : BackendMetrics → BackendMetrics
record_ws_dropped m = record m { ws_dropped = m.ws_dropped + 1 }

unfoldable pub record_config_publish : BackendMetrics → BackendMetrics
record_config_publish m = record m { config_publishes = m.config_publishes + 1 }

unfoldable pub record_config_publish_failure : BackendMetrics → BackendMetrics
record_config_publish_failure m = record m {
  config_publish_failures = m.config_publish_failures + 1;
}

unfoldable pub set_ws_clients : BackendMetrics → ℕ → BackendMetrics
set_ws_clients m count = record m { ws_clients = count }

unfoldable pub set_ring_buffer_size : BackendMetrics → ℕ → BackendMetrics
set_ring_buffer_size m size = record m { ring_buffer_size = size }

pub count_of-increment :
    (d : Counters) (s t : String)
    → count_of (increment d s) t ≡ (if str_eq s t then count_of d t + 1 else count_of d t)
unfolding count_of increment
count_of-increment [] s t = ground arith
count_of-increment ((u, n) ∷ d) s t =
    ground (arith, eq_iff s t, eq_iff u s, eq_iff u t, count_of-increment d s t)
