-- ===== src/Monitoring/Tests.antt =====
-- Runs of the heartbeat monitor at concrete inputs.
mod Threads
use distributed_tickit_syste.Common.{
  List, String, false, ◌≡◌, refl, true, some, [], ◌∷◌, string_same, string_key,
}
use distributed_tickit_syste.Common.Dict.{lookup, insert}
use distributed_tickit_syste.Monitoring.Heartbeat.{
  HeartbeatMonitor, StatusCall, check_server_health, check_from, refresh_server_health,
  get_down_servers,
}
use distributed_tickit_syste.Monitoring.Timeouts.{
  judged, check_server_health_lem, refresh_hides_failures,
}
use distributed_tickit_syste.Monitoring.Health.{
  HealthChecker, online, degraded, offline, state_for, update_states, get_state, notify_all,
}
use distributed_tickit_syste.Monitoring.Freshness.{changes_at, get_state_lem, update_states_lem}
use distributed_tickit_syste.Failover.Recovery.{contains}
use distributed_tickit_syste.Monitoring.FailureDetector.{FailureDetector, run_loop}
use distributed_tickit_syste.Monitoring.Transitions.{down_by, known_down-run_loop}
use mathlib.Core.List.{Memᴰ}

-- At 30 seconds, with a timeout of 15, server A is silent and server B is not.
abbrev monitor : HeartbeatMonitor
monitor = record {
  timeout = 15000;
  heartbeats =
      ("A", record { server_id = "A"; timestamp = 1000 })
      ∷ ("B", record { server_id = "B"; timestamp = 29000 })
      ∷ [];
  server_status = ("A", true) ∷ ("B", true) ∷ [];
  status_callbacks = 1 ∷ [];
}

-- Callback 1 is told of A.
abbrev call_of_a : StatusCall
call_of_a = record { callback = 1; server_id = "A"; is_alive = false }

refresh_hides_failures_example :
    Memᴰ call_of_a (check_server_health 30000 monitor).0
    × (lookup "A" (refresh_server_health 30000 monitor).server_status ≡ some false)
    × ((check_server_health 30000 (refresh_server_health 30000 monitor)).0 ≡ [])
unfolding lookup string_same
refresh_hides_failures_example =
    refresh_hides_failures 30000 monitor "A" (record { server_id = "A"; timestamp = 1000 })
      call_of_a (refl, (refl, tt)) refl refl refl (Memᴰ.head refl)

-- Server A was heard of 12 seconds after the start, server B has never been heard of.
abbrev checker : HealthChecker
checker = record {
  degraded_after = 10000;
  offline_after = 30000;
  check_interval = 1000;
  last_heartbeat = ("A", 12000) ∷ [];
  states = ("A", online) ∷ ("B", offline) ∷ [];
  callbacks = 1 ∷ 2 ∷ [];
}

-- The heartbeat of server A is too old, which is not known yet.
abbrev detector : FailureDetector
detector = record {
  monitor = monitor;
  failure_callbacks = 1 ∷ [];
  recovery_callbacks = 2 ∷ [];
  known_down = [];
}

abbrev in_order : List String → List String
in_order servers = servers

known_down-run_loop_example :
    down_by "A" false (run_loop in_order ((30000, 30000) ∷ (31000, 31000) ∷ []) detector).0 ≡ true
unfolding run_loop lookup string_same contains check_server_health get_down_servers check_from
    insert
known_down-run_loop_example =
    known_down-run_loop in_order (λ k xs. refl) "A" ((30000, 30000) ∷ (31000, 31000) ∷ []) detector
