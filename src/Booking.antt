-- ===== src/Booking.antt =====
-- dashboard.py: the booking of seats.
pub mod Desk
pub mod Routing
pub mod Choice
pub mod App
pub mod Book
pub mod Steps
pub mod Outcomes
pub mod AllOrNothing
pub mod Methods
pub mod Expired
pub mod Soundness
pub mod Calls
pub mod Init
pub mod Snapshot
pub mod View
pub mod Walk
pub mod Kept
pub mod Stranded
pub mod Stranding
pub mod Trace
pub mod Untouched
pub mod Reach
pub mod Routable
pub mod Routed
pub mod Finds
pub mod Unserved
pub mod Return
pub mod Simulation
pub mod Retrying
pub mod Attempts
pub mod Threads
pub mod Api
mod Tests
