-- ===== src/Provider/Metrics.antt =====
-- data-provider/metrics.py: the counters of the producer. The Prometheus mirrors are left out;
-- `monotonic()` gives the elapsed seconds as an argument.
use radiation_tracking.Prelude.{ℕ, ◌+◌, Bool, true, false, not, Option, none, some, if◌then◌else◌}
use radiation_tracking.Prelude.Int.{ℤ, pos, leb_ℤ}
use radiation_tracking.Python.{Number}

pub record ProducerMetrics (F : Type 0) : Type 0 where
  pub sent : ℕ
  pub discarded : ℕ
  pub errors : ℕ
  pub bytes : ℕ
  pub last_event_ts : Option F

pub record MetricsSnapshot (F : Type 0) : Type 0 where
  pub snapshot_sent : ℕ
  pub snapshot_discarded : ℕ
  pub snapshot_errors : ℕ
  pub bytes_sent : ℕ
  pub elapsed_seconds : F
  pub events_per_second : F
  pub last_event_timestamp : Option F

module _ {F : Type 0} where
  unfoldable pub new_producer_metrics : ProducerMetrics F
  new_producer_metrics = record {
    sent = 0;
    discarded = 0;
    errors = 0;
    bytes = 0;
    last_event_ts = none;
  }

  abbrev pub newer : Option F → Option F → Option F
  newer none ts = ts
  newer (some uploaded) ts = some uploaded

  unfoldable pub record_sent : ProducerMetrics F → Option F → ProducerMetrics F
  record_sent m uploaded_ts = record m {
    sent = m.sent + 1;
    last_event_ts = newer uploaded_ts m.last_event_ts;
  }

  unfoldable pub record_discarded : ProducerMetrics F → ProducerMetrics F
  record_discarded m = record m { discarded = m.discarded + 1 }

  unfoldable pub record_error : ProducerMetrics F → ProducerMetrics F
  record_error m = record m { errors = m.errors + 1 }

  unfoldable pub record_bytes : ProducerMetrics F → ℕ → ProducerMetrics F
  record_bytes m n = record m { bytes = m.bytes + n }

module _ {F : Type 0} ⦃n : Number F⦄ where
  unfoldable pub rate_of : ProducerMetrics F → F → F
  rate_of m elapsed = if n.lt n.zero elapsed then n.div (n.of_ℕ m.sent) elapsed else n.zero

  unfoldable pub snapshot : ProducerMetrics F → F → MetricsSnapshot F
  unfolding rate_of
  snapshot m elapsed = record {
    snapshot_sent = m.sent;
    snapshot_discarded = m.discarded;
    snapshot_errors = m.errors;
    bytes_sent = m.bytes;
    elapsed_seconds = elapsed;
    events_per_second = rate_of m elapsed;
    last_event_timestamp = m.last_event_ts;
  }

-- Whether the endpoint is served: with a positive port, the library at hand, and the port free.
unfoldable pub start_http_server : Bool → (ℤ → Bool) → ℤ → Bool
start_http_server prometheus_available binds port =
    if leb_ℤ port (pos 0)
    then false
    else if not prometheus_available
    then false
    else if binds port
    then true
    else false
