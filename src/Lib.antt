-- ===== src/Lib.antt =====
-- The distributed ticket booking system: several simulated servers sell the same seats. This
-- library models the components that decide something, and proves what they promise.
--
-- The parts, and the code that each file is about:
--   * Locking: locking/lease_manager.py, class DistributedLeaseManager. A lease gives one holder
--     one seat for a time; Booking acquires, renews, validates and releases leases. The record
--     DistributedLeaseManager has the two maps _leases_by_seat and _leases_by_id. Locking/Table is
--     what a client sees of it, one table of leases.
--   * Circuit: circuit_breaker/. Circuit/StateMachine is the class CircuitBreaker (CLOSED, OPEN and
--     HALF_OPEN are closed, opened and half_open), Circuit/FailureTracker the sliding window of
--     outcomes, Circuit/Breaker the class that composes the two.
--   * Sync: synchronization/. Sync/SeatState and Sync/StateStore are the seats of one server and
--     their version clock, Sync/Replicator sends changes to the peers and takes in theirs, the
--     greater version winning. Sync/Persistence is the dictionary form of a whole store,
--     Sync/Simulator sends the changes after a delay, and Sync/Pending counts those on their way.
--     Sync/Convergence and Sync/Eventual are about orders of delivery.
--   * Balancer: load_balancer/. One file per strategy, Balancer/Coordinator for the class
--     LoadBalancer that holds the strategy in use, Balancer/Metrics for the snapshot that a
--     strategy chooses from, Balancer/Extremum for Python's min and max with a key.
--     Balancer/Contract is what LoadBalancingStrategy promises to its clients, with a module for
--     each strategy that keeps it; Balancer/Contract/Client is the coordinator over any strategy
--     that does.
--   * Retry: retry/. Retry/Backoff is the generator of delays, Retry/Manager the retry loop.
--   * Failover: failover/. Failover/Manager counts the reports about servers that come from the
--     monitoring; the servers that are left are those that the gateway may send requests to.
--     Failover/Recovery takes servers back into the cluster and hands them the updates of seats.
--   * Monitoring: monitoring/. Heartbeats of the servers come in at Monitoring/Heartbeat
--     (heartbeat.py), a check finds the ones that are silent for too long, and tells the callbacks,
--     from which Failover gets its reports. Monitoring/FailureDetector (failure_detector.py) makes
--     passes over the heartbeat monitor, and Monitoring/Health (health_checker.py) keeps a state of
--     its own for each server. Monitoring/Status is the status of the servers for display, and
--     Monitoring/Background the threads that start and stop begin and end. Monitoring/Timeouts,
--     Monitoring/Transitions, Monitoring/Freshness and Monitoring/Background/Single are about
--     these.
--   * Ingress: ingress/http_gateway.py, the proxy that takes a booking over HTTP and its client.
--   * Telemetry: telemetry/metrics_collector.py, the latest metrics and the recorded events.
--     Telemetry/Summary is the averages that summary shows.
--   * Booking: dashboard.py, class DistributedTicketWebApp, which composes Locking, Circuit, Sync,
--     Balancer, Retry, Failover, Telemetry and the heartbeats. The record App is its state, and the
--     record Desk in it the seats together with the lease manager, from which a booking takes its
--     lease. Booking/Desk is what the methods do to the desk, Booking/App the monad of the steps (a
--     step returns or raises, and leaves the app changed either way), Booking/Book the method
--     _book_locked step by step, Booking/Routing the choice of the strategy, Booking/Methods and
--     Booking/Init the other methods, Booking/Snapshot what snapshot changes, Booking/View what it
--     returns, Booking/Retrying book_with_retry, whose attempts go through Retry, and
--     Booking/Simulation simulate_retry. Booking/Api is the functions behind the HTTP routes, each
--     a request and its response. The rest is proofs: Booking/Steps, Booking/Outcomes,
--     Booking/Choice, Booking/Finds, Booking/Routable, Booking/Routed, Booking/Unserved and
--     Booking/AllOrNothing are about one booking and the server that it goes to, Booking/Expired,
--     Booking/Soundness, Booking/Calls, Booking/Kept, Booking/Stranded and Booking/Stranding about
--     the desk, Booking/Untouched, Booking/Trace, Booking/Reach and Booking/Return about sequences
--     of calls, Booking/Attempts and Booking/Threads about bookings with retries, and Booking/Walk
--     about the metrics that the app makes up for its servers.
--   * Common: what all of these share: dictionaries as association lists with the order of Python's
--     dict, signed integers, rounding of exact fractions and Boolean tests over the native numbers.
--
-- How the code is read. A method that changes an object takes the object and returns it changed. An
-- exception is a constructor of the result. A lock is not modelled: every method holds it for its
-- whole body, so a run of several threads is a sequence of calls. Each reading of the clock is an
-- argument, in the order of the readings, and times are whole milliseconds. A random draw, a hash
-- and a uuid are arguments too: they come from Python's library. A float that is not a time is a
-- whole number of a unit that is small enough (thousandths, or tenths of a delay), without
-- rounding; in Retry the backoff factor is a whole number. A rate or an average that the source
-- rounds is rounded from the exact fraction (Common/Rounding). What is logged is not modelled.
--
-- The thread of a FailureDetector or a HealthChecker is a phase of its loop in
-- Monitoring/Background, and the calls of start and stop and the steps of the thread are one
-- sequence.
--
-- A booking with retries releases the app's lock while it sleeps, so the calls that other threads
-- make in between are an argument of it.
--
-- Loops are structural recursions: on the list that is walked, or on the number of rounds that the
-- loop's own bound leaves (the servers of the round robin, the attempts of a retry, the virtual
-- nodes), so no fuel is needed and no run is cut off.
--
-- Not modelled: of dashboard.py the page, the log, the telemetry events and the texts that are only
-- shown (last_route with its reason, retry_status); Flask, which calls the functions of the routes;
-- app.py and api/index.py, which start the web server; sockets. A callback is a number, and what it
-- does when it is called is its own. FailoverManager.update_from_heartbeat_snapshot raises a
-- NameError in its first line, since its module does not import time; the loop behind that line
-- never runs and is left out.
pub mod Common
pub mod Locking
pub mod Circuit
pub mod Sync
pub mod Balancer
pub mod Retry
pub mod Failover
pub mod Ingress
pub mod Telemetry
pub mod Monitoring
pub mod Booking
