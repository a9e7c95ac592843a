-- ===== src/Provider.antt =====
-- The data provider, data-provider/.
pub mod Rows
pub mod Samples
pub mod Reader
pub mod Mapper
pub mod Metrics
pub mod Speed
pub mod SensorClassifier
pub mod Producer
pub mod Command
