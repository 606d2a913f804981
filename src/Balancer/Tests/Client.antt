-- ===== src/Balancer/Tests/Client.antt =====
-- A client that selects by rotation, then by the least connections, then with no strategy.
use distributed_tickit_syste.Common.{none, some, List, [], ◌∷◌, true}
use distributed_tickit_syste.Balancer.RoundRobin
use distributed_tickit_syste.Balancer.RoundRobin.{RoundRobinStrategy}
use distributed_tickit_syste.Balancer.LeastConnections
use distributed_tickit_syste.Balancer.LeastConnections.{default}
use distributed_tickit_syste.Balancer.Contract.Rotation.{RoundRobin-Contract}
use distributed_tickit_syste.Balancer.Contract.Scores.{LeastConnections-Contract}
use distributed_tickit_syste.Balancer.Coordinator.{LoadBalancer, LoadBalancingStrategy}
use distributed_tickit_syste.Balancer.Contract.Client.{
  Call, select, set_strategy, Sound, run, AreAnswers, run-AreAnswers,
}
use distributed_tickit_syste.Balancer.Tests.{one_down, all_up, at_end}

abbrev by_rotation : LoadBalancingStrategy
by_rotation = record {
  State = RoundRobinStrategy;
  state = at_end;
  select_server = λ metrics key s. RoundRobin.select_server metrics s;
}

abbrev by_connections : LoadBalancingStrategy
by_connections = record {
  State = LeastConnections.ResourceAwareLeastConnectionsStrategy;
  state = default;
  select_server = λ metrics key s. (LeastConnections.select_server s metrics, s);
}

by_rotation-Sound : Sound by_rotation
by_rotation-Sound = record { IsValid = λ s. Unit; contract = RoundRobin-Contract; valid = tt }

by_connections-Sound : Sound by_connections
by_connections-Sound = record {
  IsValid = λ s. Unit;
  contract = LeastConnections-Contract;
  valid = tt;
}

abbrev calls : List Call
calls =
    select one_down none
    ∷ set_strategy (some by_connections)
    ∷ select all_up (some "seat-1")
    ∷ set_strategy none
    ∷ select all_up none
    ∷ []

abbrev balancer : LoadBalancer
balancer = record { strategy = some by_rotation }

run-AreAnswers_example : AreAnswers true calls (run calls balancer)
run-AreAnswers_example =
    run-AreAnswers calls balancer (tt, (by_connections-Sound, (tt, (tt, (tt, tt)))))
      by_rotation-Sound
