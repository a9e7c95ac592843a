-- ===== src/Flink/Tests.antt =====
-- The Flink operators on concrete inputs.
pub mod Samples
pub mod Events
pub mod Streams
pub mod Regions
pub mod Windows
pub mod Joins
