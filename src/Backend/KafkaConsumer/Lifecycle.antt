-- ===== src/Backend/KafkaConsumer/Lifecycle.antt =====
-- backend/app/core/kafka_consumer.py, start_consumer and stop_consumer: the client and the status of the
-- consumer. What `consumer.start()` comes to is a parameter.
use radiation_tracking.Prelude.{String, Bool, true, false, Option, none, some}
use radiation_tracking.Python.{Result, ok, raise}

-- The AIOKafkaConsumer: not made, connected, or stopped.
pub data Client : Type 0 where
  unopened connected closed : Client

-- `consumer.start()` returns, or raises KafkaConnectionError.
pub data Start : Type 0 where
  connects unreachable : Start

-- The module's `_status`, and its client.
pub record Lifecycle : Type 0 where
  pub status : String
  pub client : Client

-- Whether a handle is returned.
unfoldable pub start_consumer : Bool → Start → Lifecycle → Bool × Lifecycle
start_consumer false outcome c = (false, record c { status = "disabled" })
start_consumer true unreachable c = (false, record { status = "degraded"; client = closed })
start_consumer true connects c = (true, record { status = "running"; client = connected })

-- `stop_consumer` of a handle, by how its task has ended: a task that still waits for messages, `ok`, is
-- cancelled, and one that has raised raises again where it is awaited.
unfoldable pub stop_consumer :
    Option (Result (Unit {0})) → Lifecycle → Result (Unit {0}) × Lifecycle
stop_consumer none c = (ok tt, c)
stop_consumer (some (ok _)) c = (ok tt, record { status = "stopped"; client = closed })
stop_consumer (some (raise x)) c = (raise x, record c { status = "stopped" })
