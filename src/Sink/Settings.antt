-- ===== src/Sink/Settings.antt =====
-- aggregated_sink/config.py: the settings from the environment.
use Prim.Native.String.{◌++◌}
use radiation_tracking.Prelude.{String, Option, none, some, str_eq, if◌then◌else◌}
use radiation_tracking.Prelude.Int.{ℤ}
use radiation_tracking.Python.{Number, Result, ok, or_raise, value_error, ◌>>=◌}

-- `Config`
pub record SinkConfig (F : Type 0) : Type 0 where
  pub bootstrap_servers : String
  pub topic : String
  pub group_id : String
  pub dsn : String
  pub batch_size : ℤ
  pub batch_timeout_s : F
  pub connect_retries : ℤ
  pub connect_backoff_s : F
  pub log_level : String

-- `os.getenv(name, default)`
abbrev pub getenv : (String → Option String) → String → String → String
getenv env name default = elim (env name) [ none ↦ default | some text ↦ text ]

-- The connection string: DATABASE_URL unless it is empty or absent.
unfoldable pub dsn_of : (String → Option String) → String
dsn_of env =
    let url = getenv env "DATABASE_URL" "" in
    let host = getenv env "POSTGRES_HOST" "postgres" in
    let port = getenv env "POSTGRES_PORT" "5432" in
    let db = getenv env "POSTGRES_DB" "radiation" in
    let user = getenv env "POSTGRES_USER" "radiation" in
    let password = getenv env "POSTGRES_PASSWORD" "radiation" in
    if str_eq url ""
    then "host="
      ++ (host
          ++ (" port="
              ++ (port
                  ++ (" dbname=" ++ (db ++ (" user=" ++ (user ++ (" password=" ++ password))))))))
    else url

module _ {F : Type 0} ⦃n : Number F⦄ (int : String → Option ℤ) where
  -- `Config.from_env`: ValueError where a number cannot be read.
  unfoldable pub from_env : (String → Option String) → Result (SinkConfig F)
  unfolding or_raise dsn_of
  from_env env = do
    batch_size ← or_raise value_error (int (getenv env "AGG_SINK_BATCH_SIZE" "200"))
    batch_timeout_s ← or_raise value_error (n.parse (getenv env "AGG_SINK_BATCH_TIMEOUT_S" "2.0"))
    connect_retries ← or_raise value_error (int (getenv env "AGG_SINK_CONNECT_RETRIES" "30"))
    connect_backoff_s ←
        or_raise value_error (n.parse (getenv env "AGG_SINK_CONNECT_BACKOFF_S" "2.0"))
    ok (record {
      bootstrap_servers = getenv env "KAFKA_BOOTSTRAP_SERVERS" "kafka:9092";
      topic = getenv env "AGG_SINK_TOPIC" "radiation.aggregated";
      group_id = getenv env "AGG_SINK_GROUP_ID" "aggregated-postgres-sink";
      dsn = dsn_of env;
      batch_size = batch_size;
      batch_timeout_s = batch_timeout_s;
      connect_retries = connect_retries;
      connect_backoff_s = connect_backoff_s;
      log_level = getenv env "LOG_LEVEL" "INFO";
    })
