-- ===== src/Exec.antt =====
-- cpp/exec: the execution algorithms.
pub mod Double
pub mod Schedule
pub mod Publisher
pub mod RlPolicy
mod Tests
