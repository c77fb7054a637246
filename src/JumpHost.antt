-- ===== src/JumpHost.antt =====
-- How many sessions go through a jump host at once, and when it is left alone.
pub mod Breaker
pub mod Locks
pub mod Wait
pub mod Samples
pub mod Slots
