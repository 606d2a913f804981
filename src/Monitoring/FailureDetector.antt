-- ===== src/Monitoring/FailureDetector.antt =====
-- monitoring/failure_detector.py: the passes of the loop over the heartbeat monitor. A set is a list
-- without repetition, a callback is a number, and what a callback raises is caught by the source.
-- `sorted` is Python's. The two lines that the logger gets for a server are one event. The thread
-- that makes a pass after every interval is in Monitoring/Background.
use distributed_tickit_syste.Common.{ℕ, String, List, [], ◌∷◌, ◌++◌, map, if◌then◌else◌, string_key}
use distributed_tickit_syste.Failover.Recovery.{contains}
use distributed_tickit_syste.Monitoring.Heartbeat.{
  HeartbeatMonitor, check_server_health, get_down_servers, remove,
}

pub record FailureDetector : Type 0 where
  pub monitor : HeartbeatMonitor
  pub failure_callbacks : List ℕ
  pub recovery_callbacks : List ℕ
  pub known_down : List String

abbrev pub init : HeartbeatMonitor → FailureDetector
init monitor = record {
  monitor = monitor;
  failure_callbacks = [];
  recovery_callbacks = [];
  known_down = [];
}

pub data Event : Type 0 where
  timeout_logged recovery_logged : String → Event
  failure_called recovery_called : ℕ → String → Event

-- `xs - ys`
abbrev pub difference : List String → List String → List String
difference [] ys = []
difference (x ∷ xs) ys = if contains x ys then difference xs ys else x ∷ difference xs ys

-- The loop over the servers that have failed.
unfoldable pub report_failures : List ℕ → List String → List Event
report_failures callbacks [] = []
report_failures callbacks (srv ∷ servers) =
    timeout_logged srv ∷ map (λ callback. failure_called callback srv) callbacks
    ++ report_failures callbacks servers

-- The loop over the servers that are back.
unfoldable pub report_recoveries : List ℕ → List String → List Event
report_recoveries callbacks [] = []
report_recoveries callbacks (srv ∷ servers) =
    recovery_logged srv ∷ map (λ callback. recovery_called callback srv) callbacks
    ++ report_recoveries callbacks servers

module _ (sorted : List String → List String) where
  -- A pass from `current_down` on.
  unfoldable pub report_changes : List String → FailureDetector → List Event × FailureDetector
  report_changes current_down d = (
    report_failures d.failure_callbacks (sorted (difference current_down d.known_down))
        ++ report_recoveries d.recovery_callbacks (sorted (difference d.known_down current_down)),
    record d { known_down = current_down },
  )

  -- One pass of `_run_loop`; `now` and `later` are the readings of the clock of
  -- `check_server_health` and of `get_down_servers`.
  unfoldable pub run_once : (now later : ℕ) → FailureDetector → List Event × FailureDetector
  unfolding report_changes
  run_once now later d =
      let checked = (check_server_health now d.monitor).1 in
      let (current_down, monitor) = get_down_servers later checked in
      report_changes current_down (record d { monitor = monitor })

  -- The passes at the given readings of the clock.
  unfoldable pub run_loop : List (ℕ × ℕ) → FailureDetector → List Event × FailureDetector
  unfolding run_once
  run_loop [] d = ([], d)
  run_loop ((now, later) ∷ passes) d =
      let (events, d') = run_once now later d in
      let (events', d'') = run_loop passes d' in (events ++ events', d'')

unfoldable pub register_failure_callback : ℕ → FailureDetector → FailureDetector
register_failure_callback callback d = record d {
  failure_callbacks = d.failure_callbacks ++ callback ∷ [];
}

unfoldable pub register_recovery_callback : ℕ → FailureDetector → FailureDetector
register_recovery_callback callback d = record d {
  recovery_callbacks = d.recovery_callbacks ++ callback ∷ [];
}

unfoldable pub unregister_failure_callback : ℕ → FailureDetector → FailureDetector
unregister_failure_callback callback d = record d {
  failure_callbacks = remove callback d.failure_callbacks;
}

unfoldable pub unregister_recovery_callback : ℕ → FailureDetector → FailureDetector
unregister_recovery_callback callback d = record d {
  recovery_callbacks = remove callback d.recovery_callbacks;
}

abbrev pub get_known_down : FailureDetector → List String
get_known_down d = d.known_down
