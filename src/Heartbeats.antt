-- ===== src/Heartbeats.antt =====
-- server/app/heartbeats.
pub mod Service
