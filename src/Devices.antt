-- ===== src/Devices.antt =====
-- server/app/devices.
pub mod Credentials
pub mod Identity
