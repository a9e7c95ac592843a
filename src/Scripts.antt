-- ===== src/Scripts.antt =====
-- The operational scripts, scripts/.
pub mod Provisioning
