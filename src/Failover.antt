-- ===== src/Failover.antt =====
-- failover/: which servers count as healthy. Times are
-- whole milliseconds, and what is logged is not modelled.
pub mod Manager
pub mod Hysteresis
pub mod Targets
pub mod Recovery
pub mod Membership
mod Tests
