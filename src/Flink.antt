-- ===== src/Flink.antt =====
-- flink-jobs/: the Flink job, one module per operator.
pub mod Timestamps
pub mod Model
pub mod Classifier
pub mod Dedup
pub mod Cooldown
pub mod Series
pub mod Trend
pub mod RollingStats
pub mod Region
pub mod GeoAggregation
pub mod AlertDetection
pub mod Tests
pub mod RegionJoin
pub mod Security
