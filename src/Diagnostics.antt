-- ===== src/Diagnostics.antt =====
-- app/services/backup_diagnostics.py: what a failure message means, and what a backup file must hold.
pub mod Failure
