-- ===== src/Notifications.antt =====
-- server/app/notifications.
pub mod Delivery
pub mod Service
pub mod Queue
pub mod Management
