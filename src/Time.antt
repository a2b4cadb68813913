-- ===== src/Time.antt =====
-- include/net/time: the schedulers that call jobs at intervals.
pub mod Simple
pub mod Strand
pub mod Interval
