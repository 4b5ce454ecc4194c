-- ===== src/Tests.antt =====
-- Sample states and runs, and instances of the theorems at them.
mod Samples
mod Queue
mod Monitoring
mod Lifecycle
mod Heartbeats
mod Recipients
mod Identity
mod Enrollment
mod Records
