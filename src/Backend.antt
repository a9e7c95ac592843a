-- ===== src/Backend.antt =====
-- The backend service, backend/app/.
pub mod Metrics
pub mod RingBuffer
pub mod Broadcaster
pub mod KafkaConsumer
pub mod Config
pub mod ViewFilter
pub mod Stream
pub mod Topics
pub mod History
pub mod Recent
pub mod Lifespan
