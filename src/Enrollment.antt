-- ===== src/Enrollment.antt =====
-- server/app/enrollment.
pub mod Token
pub mod Service
