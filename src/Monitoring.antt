-- ===== src/Monitoring.antt =====
-- monitoring/: which servers are alive.
pub mod Heartbeat
pub mod Timeouts
pub mod Health
pub mod Freshness
pub mod FailureDetector
pub mod Transitions
pub mod Status
pub mod Background
mod Tests
