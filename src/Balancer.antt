-- ===== src/Balancer.antt =====
-- load_balancer/: strategies that choose a server from the metrics of all servers. Every strategy
-- returns `none` where the source returns `None`; what it logs is not modelled.
pub mod Metrics
pub mod Extremum
pub mod RoundRobin
pub mod WeightedRoundRobin
pub mod LeastConnections
pub mod AdaptiveFeedback
pub mod ConsistentHashing
pub mod Coordinator
pub mod Contract
mod Tests
