-- ===== src/Failover/Manager.antt =====
-- failover/failover_manager.py. A callback is a number, and an operation also returns the callbacks
-- that it calls, each with the server that it is given; what a callback raises is not modelled.
use distributed_tickit_syste.Common.{
  ℕ, ◌+◌, String, Bool, true, false, not, ◌&&◌, Option, none, some, List, [], ◌∷◌, ◌++◌, map,
  filter, leb, max, ite, if◌then◌else◌, string_same, string_key,
}
use distributed_tickit_syste.Common.Dict.{Dict, lookup, insert}
use distributed_tickit_syste.Balancer.Metrics.{ServerMetrics, is_online}

pub record ServerFailoverState : Type 0 where
  pub server_id : String
  pub healthy : Bool
  pub last_seen : ℕ
  pub fail_count : ℕ
  pub recover_count : ℕ
  pub reason : String

abbrev pub fresh : String → ServerFailoverState
fresh server_id = record {
  server_id = server_id;
  healthy = true;
  last_seen = 0;
  fail_count = 0;
  recover_count = 0;
  reason = "ok";
}

abbrev pub Calls : Type 0
Calls = List (ℕ × String)

pub record FailoverManager : Type 0 where
  pub states : Dict String ServerFailoverState
  pub healthy_threshold : ℕ
  pub unhealthy_threshold : ℕ
  pub failure_callbacks : List ℕ
  pub recovery_callbacks : List ℕ

unfoldable pub init : (healthy_threshold unhealthy_threshold : ℕ) → FailoverManager
init healthy_threshold unhealthy_threshold = record {
  states = [];
  healthy_threshold = max 1 healthy_threshold;
  unhealthy_threshold = max 1 unhealthy_threshold;
  failure_callbacks = [];
  recovery_callbacks = [];
}

unfoldable pub register_failure_callback : ℕ → FailoverManager → FailoverManager
register_failure_callback callback m = record m {
  failure_callbacks = m.failure_callbacks ++ callback ∷ [];
}

unfoldable pub register_recovery_callback : ℕ → FailoverManager → FailoverManager
register_recovery_callback callback m = record m {
  recovery_callbacks = m.recovery_callbacks ++ callback ∷ [];
}

-- `a or b` of texts.
abbrev pub or_else : String → String → String
or_else a b = ite (string_same a "") b a

-- `_states.setdefault(server_id, ...)`: the state that is there, or a new one.
abbrev pub state_of : String → FailoverManager → ServerFailoverState
state_of server_id m = elim (lookup server_id m.states) [ none ↦ fresh server_id | some s ↦ s ]

-- What a report changes besides the counters.
pub data Change : Type 0 where
  unchanged recovered failed : Change

abbrev pub seen : ℕ → String → ServerFailoverState → ServerFailoverState
seen timestamp reason s = record s { last_seen = timestamp; reason = or_else reason s.reason }

-- The branch of `update_health` for a healthy report, for the state after `seen`.
unfoldable pub report_healthy : FailoverManager → ServerFailoverState → ServerFailoverState × Change
report_healthy m s =
    let counted = record s { recover_count = s.recover_count + 1; fail_count = 0 } in
    if not s.healthy && leb m.healthy_threshold (s.recover_count + 1)
    then (record counted { healthy = true; reason = "recovered" }, recovered)
    else (counted, unchanged)

-- The other branch, with the reason that is given.
unfoldable pub report_unhealthy :
    FailoverManager → String → ServerFailoverState → ServerFailoverState × Change
report_unhealthy m reason s =
    let counted = record s { fail_count = s.fail_count + 1; recover_count = 0 } in
    if s.healthy && leb m.unhealthy_threshold (s.fail_count + 1)
    then (record counted { healthy = false; reason = or_else reason "unhealthy" }, failed)
    else (counted, unchanged)

unfoldable pub report :
    FailoverManager → Bool → ℕ → String → ServerFailoverState → ServerFailoverState × Change
report m healthy timestamp reason s =
    if healthy
    then report_healthy m (seen timestamp reason s)
    else report_unhealthy m reason (seen timestamp reason s)

abbrev pub calls_for : Change → String → FailoverManager → Calls
calls_for unchanged server_id m = []
calls_for recovered server_id m = map (λ callback. (callback, server_id)) m.recovery_callbacks
calls_for failed server_id m = map (λ callback. (callback, server_id)) m.failure_callbacks

unfoldable pub update_health :
    String → Bool → ℕ → String → FailoverManager → Calls × FailoverManager
update_health server_id healthy timestamp reason m =
    let after = report m healthy timestamp reason (state_of server_id m) in
    (calls_for after.1 server_id m, record m { states = insert server_id after.0 m.states })

unfoldable pub get_state : String → FailoverManager → ServerFailoverState × FailoverManager
get_state server_id m =
    (state_of server_id m, record m { states = insert server_id (state_of server_id m) m.states })

abbrev pub not_failed : Option ServerFailoverState → Bool
not_failed none = true
not_failed (some s) = s.healthy

abbrev pub is_usable : FailoverManager → ServerMetrics → Bool
is_usable m metric = is_online metric && not_failed (lookup metric.server_id m.states)

unfoldable pub get_healthy_servers : List ServerMetrics → FailoverManager → List String
get_healthy_servers metrics m = map (λ metric. metric.server_id) (filter (is_usable m) metrics)

abbrev pub first : List String → Option String
first [] = none
first (server_id ∷ rest) = some server_id

unfoldable pub choose_failover_target : List ServerMetrics → FailoverManager → Option String
choose_failover_target metrics m = first (get_healthy_servers metrics m)

-- What a call raises: the `NameError` of a name that is not defined.
pub data Raised : Type 0 where
  name_error : String → Raised

-- `now = time.time()` raises, since the module does not import `time`: the loop behind it does not run.
unfoldable pub update_from_heartbeat_snapshot : FailoverManager → Raised × FailoverManager
update_from_heartbeat_snapshot m = (name_error "time", m)
