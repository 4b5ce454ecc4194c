-- ===== src/Logs.antt =====
-- server/app/logs.
pub mod Cursor
pub mod Search
pub mod Service
