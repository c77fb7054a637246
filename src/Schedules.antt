-- ===== src/Schedules.antt =====
-- The daily backups of the tenants: when they run next, and the task that starts them.
pub mod Clock
pub mod Tables
pub mod Queue
pub mod Runner
mod Samples
