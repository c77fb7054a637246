-- ===== src/Queue.antt =====
-- How a batch is put into the queues.
pub mod Countdown
pub mod Interleave
pub mod Samples
