-- ===== src/Logs.antt =====
-- The live logs of the backup tasks.
pub mod Samples
pub mod Scan
pub mod Store
