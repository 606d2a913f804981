-- ===== src/Balancer/Coordinator.antt =====
-- load_balancer/load_balancer.py and strategy.py: the coordinator over whichever strategy is set.
use distributed_tickit_syste.Common.{String, Option, none, some, List}
use distributed_tickit_syste.Balancer.Metrics.{ServerMetrics}

-- `LoadBalancingStrategy`: an object with a state of its own. The `Option String` is the routing key.
pub record LoadBalancingStrategy : Type 1 where
  pub State : Type 0
  pub state : State
  pub select_server : List ServerMetrics → Option String → State → Option String × State

-- `_strategy` is `none` where the source has `None`.
pub record LoadBalancer : Type 1 where
  pub strategy : Option LoadBalancingStrategy

unfoldable pub init : Option LoadBalancingStrategy → LoadBalancer
init strategy = record { strategy = strategy }

unfoldable pub set_strategy : Option LoadBalancingStrategy → LoadBalancer → LoadBalancer
set_strategy strategy lb = record lb { strategy = strategy }

unfoldable pub get_strategy : LoadBalancer → Option LoadBalancingStrategy
get_strategy lb = lb.strategy

-- What `select` returns or raises: `not_configured` is its `RuntimeError`.
pub data Selection : Type 0 where
  selected : Option String → Selection
  not_configured : Selection

-- The strategy keeps the state that its selection leaves.
unfoldable pub select : List ServerMetrics → Option String → LoadBalancer → Selection × LoadBalancer
select metrics routing_key lb = elim lb.strategy [
  | none ↦ (not_configured, lb)
  | some s ↦
      let (chosen, after) = s.select_server metrics routing_key s.state in
      (selected chosen, record lb { strategy = some (record s { state = after }) })
]
