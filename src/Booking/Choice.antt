-- ===== src/Booking/Choice.antt =====
-- dashboard.py: whichever strategy is in use keeps the contract of a strategy.
use distributed_tickit_syste.Common.{
  ℕ, ◌≤◌, ◌≡◌, String, Option, none, some, List, [], ◌∷◌, arith, string_key,
}
use distributed_tickit_syste.Common.Int.{pos}
use distributed_tickit_syste.Common.Dict.{lookup}
use distributed_tickit_syste.Balancer.Metrics.{ServerMetrics, online_servers, IsCandidate}
use distributed_tickit_syste.Balancer.Contract.{Contract}
use distributed_tickit_syste.Balancer.Contract.Rotation.{RoundRobin-Contract}
use distributed_tickit_syste.Balancer.Contract.Weights.{IsPositive, WeightedRoundRobin-Contract}
use distributed_tickit_syste.Balancer.Contract.Scores.{
  LeastConnections-Contract, AdaptiveFeedback-Contract,
}
use distributed_tickit_syste.Balancer.Contract.Hashing.{ConsistentHashing-Contract}
use distributed_tickit_syste.Balancer.RoundRobin
use distributed_tickit_syste.Balancer.WeightedRoundRobin
use distributed_tickit_syste.Balancer.ConsistentHashing
use distributed_tickit_syste.Booking.Routing.{
  ActiveStrategy, round_robin, weighted, resource_aware, hashing, adaptive, StrategyName,
  by_rotation, by_weight, by_resources, by_hash, by_feedback, strategy_for, select,
}

-- No weight is zero or negative, and the ring has virtual nodes.
abbrev pub IsValid : ActiveStrategy → Type 0
IsValid (round_robin s) = Unit
IsValid (weighted s) = IsPositive s
IsValid (resource_aware s) = Unit
IsValid (hashing s) = 1 ≤ s.vnode_count
IsValid adaptive = Unit

module _ (hash : String → ℕ) where
  select-IsValid :
      (metrics : List ServerMetrics) (key : Option String) (s : ActiveStrategy)
      → IsValid s
      → IsValid (select hash metrics key s).1
  unfolding select
  select-IsValid metrics key (round_robin s) v = tt
  select-IsValid metrics key (weighted s) v = WeightedRoundRobin-Contract.keeps metrics key s v
  select-IsValid metrics key (resource_aware s) v = tt
  select-IsValid metrics key (hashing s) v = (ConsistentHashing-Contract hash).keeps metrics key s v
  select-IsValid metrics key adaptive v = tt

  select-selects :
      (metrics : List ServerMetrics) (key : Option String) (s : ActiveStrategy) (n : ServerMetrics)
      → IsValid s
      → IsCandidate n metrics
      → (m : ServerMetrics) × ((select hash metrics key s).0 ≡ some m.server_id)
        × IsCandidate m metrics
  unfolding select
  select-selects metrics key (round_robin s) n v h =
      RoundRobin-Contract.selects metrics key s n tt h
  select-selects metrics key (weighted s) n v h =
      WeightedRoundRobin-Contract.selects metrics key s n v h
  select-selects metrics key (resource_aware s) n v h =
      LeastConnections-Contract.selects metrics key s n tt h
  select-selects metrics key (hashing s) n v h =
      (ConsistentHashing-Contract hash).selects metrics key s n v h
  select-selects metrics key adaptive n v h =
      AdaptiveFeedback-Contract.selects metrics key tt n tt h

  select-none :
      (metrics : List ServerMetrics) (key : Option String) (s : ActiveStrategy)
      → online_servers metrics ≡ []
      → (select hash metrics key s).0 ≡ none
  unfolding select
  select-none metrics key (round_robin s) e = RoundRobin-Contract.idle metrics key s e
  select-none metrics key (weighted s) e = WeightedRoundRobin-Contract.idle metrics key s e
  select-none metrics key (resource_aware s) e = LeastConnections-Contract.idle metrics key s e
  select-none metrics key (hashing s) e = (ConsistentHashing-Contract hash).idle metrics key s e
  select-none metrics key adaptive e = AdaptiveFeedback-Contract.idle metrics key tt e

  -- Whichever of its five strategies the dashboard has in use, it keeps the contract of a strategy,
  -- in every state in which no weight is zero or negative and the ring has virtual nodes: a selection
  -- leaves such a state, it gives the id of an online server if there is one among the metrics, and
  -- gives none if there is none.
  pub select-Contract : Contract IsValid (λ metrics key s. select hash metrics key s)
  select-Contract = record { keeps = select-IsValid; selects = select-selects; idle = select-none }

weights-IsPositive :
    IsPositive (
      WeightedRoundRobin.init
        (("Server 1", pos 3) ∷ ("Server 2", pos 2) ∷ ("Server 3", pos 1) ∷ []))
unfolding WeightedRoundRobin.weight_for WeightedRoundRobin.init lookup
weights-IsPositive sid = ground arith

-- Every strategy that the dashboard offers is set up in such a state.
pub strategy_for-IsValid : (name : StrategyName) → IsValid (strategy_for name)
unfolding strategy_for RoundRobin.init WeightedRoundRobin.init ConsistentHashing.init
strategy_for-IsValid by_rotation = tt
strategy_for-IsValid by_weight = weights-IsPositive
strategy_for-IsValid by_resources = tt
strategy_for-IsValid by_hash = omega arith
strategy_for-IsValid by_feedback = tt
