-- ===== src/Lifecycle.antt =====
-- server/app/lifecycle.
pub mod Report
pub mod Service
