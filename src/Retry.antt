-- ===== src/Retry.antt =====
-- retry/: delays that grow exponentially, and calls that are tried again. A `float` of seconds is a
-- whole number of a small unit, and the factors are whole numbers.
pub mod Backoff
pub mod Manager
mod Tests
