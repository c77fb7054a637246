-- ===== src/Tasks.antt =====
-- app/services/realtime_backup_logs.py and app/tasks/backups.py: what Redis knows of the tasks that run.
pub mod Store
pub mod Active
mod Samples
