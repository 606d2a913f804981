-- ===== src/Sync.antt =====
-- synchronization/: the seats of one server, and their replication to the others.
pub mod SeatState
pub mod StateStore
pub mod Persistence
pub mod Replicator
pub mod Convergence
pub mod Eventual
pub mod Clock
pub mod Simulator
pub mod Pending
mod Tests
