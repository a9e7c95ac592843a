-- ===== src/Shared.antt =====
-- shared/validator/, which the data provider and the Flink job are meant to share.
pub mod Validator
