-- ===== src/Sink.antt =====
-- The aggregated sink, aggregated_sink/: it writes the blobs of radiation.aggregated to Postgres.
pub mod Rows
pub mod Settings
pub mod Connect
pub mod Consumer
