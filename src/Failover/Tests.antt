-- ===== src/Failover/Tests.antt =====
-- Runs of the failover manager at concrete inputs.
use distributed_tickit_syste.Common.{
  ℕ, ◌+◌, ◌≡◌, ◌≢◌, refl, ap, String, false, List, [], ◌∷◌, ltb, ite, if◌then◌else◌, arith,
  string_same,
}
use distributed_tickit_syste.Common.Dict.{lookup}
use distributed_tickit_syste.Balancer.Metrics.{ServerMetrics, Status, online, offline}
use distributed_tickit_syste.Failover.Manager.{
  FailoverManager, init, register_failure_callback, state_of, calls_for, failed, update_health,
  get_healthy_servers, choose_failover_target,
}
use distributed_tickit_syste.Failover.Hysteresis.{report_all, failures_lem, update_health-other}
use distributed_tickit_syste.Sync.SeatState.{SeatState, reserved}

program : Unit {0}
unfolding init register_failure_callback report_all update_health get_healthy_servers
    choose_failover_target
program = tt

-- One callback; two reports change the health of a server.
abbrev manager : FailoverManager
manager = record {
  states = [];
  healthy_threshold = 2;
  unhealthy_threshold = 2;
  failure_callbacks = 1 ∷ [];
  recovery_callbacks = [];
}

abbrev metric : String → Status → ServerMetrics
metric server_id status = record {
  server_id = server_id;
  cpu_usage = 40000;
  active_connections = 1;
  response_time = 50000;
  error_rate = 0;
  request_count = 0;
  status = status;
}

abbrev metrics : List ServerMetrics
metrics = metric "A" offline ∷ metric "B" online ∷ []

abbrev three : List (ℕ × String)
three = (1, "down") ∷ (2, "down") ∷ (3, "down") ∷ []

failures_lem_example :
    ((state_of "A" (report_all "A" false three manager).1).healthy ≡ ltb (0 + 3) 2)
    × ((report_all "A" false three manager).0
        ≡ (if ltb (0 + 3) 2 then [] else calls_for failed "A" manager))
unfolding lookup
failures_lem_example = failures_lem "A" three manager refl (omega arith)

as_number : String → ℕ
as_number x = ite (string_same x "B") 1 0

a_is_not_b : ◌≢◌ {A = String} "A" "B"
unfolding as_number string_same
a_is_not_b e = let apart : 0 ≡ 1 = ap as_number e in absurd (omega (arith, apart))

update_health-other_example :
    state_of "B" (update_health "A" false 1 "down" manager).1 ≡ state_of "B" manager
update_health-other_example = update_health-other "A" "B" false 1 "down" manager a_is_not_b

abbrev updates : List SeatState
updates =
    record { seat_id = 4; state = reserved; last_updated = "t0"; owner = "Alice"; version = 2 } ∷ []
