-- ===== src/Balancer/Contract/Scores.antt =====
-- load_balancer/resource_aware_least_connections.py and load_balancer/adaptive_feedback.py keep
-- the contract of a strategy.
use distributed_tickit_syste.Common.{refl}
use distributed_tickit_syste.Balancer.Contract.{Contract}
use distributed_tickit_syste.Balancer.LeastConnections
use distributed_tickit_syste.Balancer.LeastConnections.{
  ResourceAwareLeastConnectionsStrategy, select_server-least,
}
use distributed_tickit_syste.Balancer.AdaptiveFeedback
use distributed_tickit_syste.Balancer.AdaptiveFeedback.{select_server-healthiest}

pub LeastConnections-Contract :
    Contract {State = ResourceAwareLeastConnectionsStrategy}
      (λ s. Unit {0})
      (λ metrics key s. (LeastConnections.select_server s metrics, s))
unfolding LeastConnections.select_server
LeastConnections-Contract = record {
  keeps = λ metrics key s v. tt;
  selects = λ metrics key s n v h.
      let (m, chosen, at, _) = select_server-least s metrics n h in (m, chosen, at);
  idle = λ metrics key s e. rw e refl;
}

pub AdaptiveFeedback-Contract :
    Contract {State = Unit {0}}
      (λ s. Unit {0})
      (λ metrics key s. (AdaptiveFeedback.select_server metrics, s))
unfolding AdaptiveFeedback.select_server
AdaptiveFeedback-Contract = record {
  keeps = λ metrics key s v. tt;
  selects = λ metrics key s n v h.
      let (m, chosen, at, _) = select_server-healthiest metrics n h in (m, chosen, at);
  idle = λ metrics key s e. rw e refl;
}
