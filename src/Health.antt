-- ===== src/Health.antt =====
-- server/app/health.
pub mod State
pub mod Service
