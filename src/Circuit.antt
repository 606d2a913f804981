-- ===== src/Circuit.antt =====
-- circuit_breaker/: the state machine, the sliding window of outcomes, and the breaker over both.
pub mod StateMachine
pub mod FailureTracker
pub mod Breaker
mod Tests
