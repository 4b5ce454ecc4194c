-- ===== src/Gpu.antt =====
-- server/app/gpu.
pub mod Confirmation
pub mod Service
