-- ===== src/Booking/Routing.antt =====
-- dashboard.py: the five load balancing strategies by name, and the one in use.
use distributed_tickit_syste.Common.{ℕ, String, Option, List, [], ◌∷◌, ite, string_same}
use distributed_tickit_syste.Common.Int.{pos}
use distributed_tickit_syste.Balancer.Metrics.{ServerMetrics}
use distributed_tickit_syste.Balancer.RoundRobin
use distributed_tickit_syste.Balancer.RoundRobin.{RoundRobinStrategy}
use distributed_tickit_syste.Balancer.WeightedRoundRobin
use distributed_tickit_syste.Balancer.WeightedRoundRobin.{WeightedRoundRobinStrategy}
use distributed_tickit_syste.Balancer.LeastConnections
use distributed_tickit_syste.Balancer.LeastConnections.{ResourceAwareLeastConnectionsStrategy}
use distributed_tickit_syste.Balancer.AdaptiveFeedback
use distributed_tickit_syste.Balancer.ConsistentHashing
use distributed_tickit_syste.Balancer.ConsistentHashing.{ConsistentHashingStrategy}

-- The strategy object in use, with its state.
pub data ActiveStrategy : Type 0 where
  round_robin : RoundRobinStrategy → ActiveStrategy
  weighted : WeightedRoundRobinStrategy → ActiveStrategy
  resource_aware : ResourceAwareLeastConnectionsStrategy → ActiveStrategy
  hashing : ConsistentHashingStrategy → ActiveStrategy
  adaptive : ActiveStrategy

pub data StrategyName : Type 0 where
  by_rotation by_weight by_resources by_hash by_feedback : StrategyName

-- `set_strategy`'s test of the name: any other name stands for round robin.
unfoldable pub name_of : String → StrategyName
name_of name = ite (string_same name "Weighted Round Robin") by_weight (
    ite (string_same name "Resource-Aware") by_resources (
      ite (string_same name "Consistent Hashing") by_hash
        (ite (string_same name "Adaptive Feedback") by_feedback by_rotation)))

unfoldable pub strategy_for : StrategyName → ActiveStrategy
unfolding RoundRobin.init WeightedRoundRobin.init ConsistentHashing.init
strategy_for by_rotation = round_robin RoundRobin.init
strategy_for by_weight =
    weighted (
      WeightedRoundRobin.init
        (("Server 1", pos 3) ∷ ("Server 2", pos 2) ∷ ("Server 3", pos 1) ∷ []))
strategy_for by_resources = resource_aware LeastConnections.default
strategy_for by_hash = hashing (ConsistentHashing.init 50)
strategy_for by_feedback = adaptive

-- `load_balancer.select(metrics, routing_key)`; `hash` is the one of consistent hashing.
unfoldable pub select :
    (hash : String → ℕ)
    → List ServerMetrics
    → Option String
    → ActiveStrategy
    → Option String × ActiveStrategy
select hash metrics key (round_robin s) =
    let (chosen, s') = RoundRobin.select_server metrics s in (chosen, round_robin s')
select hash metrics key (weighted s) =
    let (chosen, s') = WeightedRoundRobin.select_server metrics s in (chosen, weighted s')
select hash metrics key (resource_aware s) =
    (LeastConnections.select_server s metrics, resource_aware s)
select hash metrics key (hashing s) =
    let (chosen, s') = ConsistentHashing.select_server hash metrics key s in (chosen, hashing s')
select hash metrics key adaptive = (AdaptiveFeedback.select_server metrics, adaptive)
