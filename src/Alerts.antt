-- ===== src/Alerts.antt =====
-- What health and GPU monitoring share: who is told of an event, and the event's rows.
pub mod Recipients
pub mod Events
pub mod Incidents
