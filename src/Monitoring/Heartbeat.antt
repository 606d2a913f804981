-- ===== src/Monitoring/Heartbeat.antt =====
-- monitoring/heartbeat.py. Times are whole milliseconds, and each reading of the clock is an argument.
-- A callback is a number; an operation that calls them also returns the calls in order,
-- and what a callback raises is not modelled. No method reads `heartbeat_interval`.
use distributed_tickit_syste.Common.{
  ℕ, ◌+◌, String, Bool, true, false, not, ◌&&◌, none, some, List, [], ◌∷◌, ◌++◌, map, length, leb,
  ite, if◌then◌else◌, ℕ_discrete, string_key,
}
use distributed_tickit_syste.Common.Dict.{Dict, lookup, insert}

pub record Heartbeat : Type 0 where
  pub server_id : String
  pub timestamp : ℕ

pub record StatusCall : Type 0 where
  pub callback : ℕ
  pub server_id : String
  pub is_alive : Bool

pub record HeartbeatMonitor : Type 0 where
  pub timeout : ℕ
  pub heartbeats : Dict String Heartbeat
  pub server_status : Dict String Bool
  pub status_callbacks : List ℕ

unfoldable pub init : (timeout : ℕ) → HeartbeatMonitor
init timeout = record {
  timeout = timeout;
  heartbeats = [];
  server_status = [];
  status_callbacks = [];
}

abbrev pub tell : String → Bool → HeartbeatMonitor → List StatusCall
tell sid is_alive m =
    map (λ callback. record { callback = callback; server_id = sid; is_alive = is_alive })
      m.status_callbacks

-- `self._server_status.get(server_id, default)`
abbrev pub status_or : Bool → String → Dict String Bool → Bool
status_or default sid status = elim (lookup sid status) [ none ↦ default | some alive ↦ alive ]

unfoldable pub record_heartbeat :
    String → (timestamp : ℕ) → HeartbeatMonitor → List StatusCall × HeartbeatMonitor
record_heartbeat sid timestamp m = (
  if status_or false sid m.server_status then [] else tell sid true m,
  record m {
    heartbeats = insert sid (record { server_id = sid; timestamp = timestamp }) m.heartbeats;
    server_status = insert sid true m.server_status;
  },
)

-- `current_time - heartbeat.timestamp <= self.timeout`
abbrev pub in_time : ℕ → HeartbeatMonitor → Heartbeat → Bool
in_time now m heartbeat = leb now (heartbeat.timestamp + m.timeout)

-- The loop of `check_server_health` over the heartbeats that are left.
unfoldable pub check_from :
    ℕ
    → HeartbeatMonitor
    → Dict String Heartbeat
    → Dict String Bool
    → List StatusCall × Dict String Bool
check_from now m [] status = ([], status)
check_from now m ((sid, heartbeat) ∷ heartbeats) status =
    let is_alive = in_time now m heartbeat in
    let was_alive = status_or true sid status in
    let rest = check_from now m heartbeats (insert sid is_alive status) in
    ((if was_alive && not is_alive then tell sid false m else []) ++ rest.0, rest.1)

unfoldable pub check_server_health : ℕ → HeartbeatMonitor → List StatusCall × HeartbeatMonitor
check_server_health now m =
    let checked = check_from now m m.heartbeats m.server_status in
    (checked.0, record m { server_status = checked.1 })

-- The loop of `_refresh_server_health_locked`.
unfoldable pub refresh_from :
    ℕ → HeartbeatMonitor → Dict String Heartbeat → Dict String Bool → Dict String Bool
refresh_from now m [] status = status
refresh_from now m ((sid, heartbeat) ∷ heartbeats) status =
    refresh_from now m heartbeats (insert sid (in_time now m heartbeat) status)

unfoldable pub refresh_server_health : ℕ → HeartbeatMonitor → HeartbeatMonitor
refresh_server_health now m = record m {
  server_status = refresh_from now m m.heartbeats m.server_status;
}

unfoldable pub is_server_alive : ℕ → String → HeartbeatMonitor → Bool × HeartbeatMonitor
is_server_alive now sid m =
    let checked = (check_server_health now m).1 in
    (status_or false sid checked.server_status, checked)

unfoldable pub register_status_callback : ℕ → HeartbeatMonitor → HeartbeatMonitor
register_status_callback callback m = record m {
  status_callbacks = m.status_callbacks ++ callback ∷ [];
}

-- `remove`: the first occurrence goes, if there is one.
abbrev pub remove : ℕ → List ℕ → List ℕ
remove callback [] = []
remove callback (c ∷ callbacks) =
    ite (ℕ_discrete c callback) callbacks (c ∷ remove callback callbacks)

unfoldable pub unregister_status_callback : ℕ → HeartbeatMonitor → HeartbeatMonitor
unregister_status_callback callback m = record m {
  status_callbacks = remove callback m.status_callbacks;
}

abbrev pub ids_with : Bool → Dict String Bool → List String
ids_with alive [] = []
ids_with alive ((sid, a) ∷ status) =
    let rest = ids_with alive status in
    if alive then (if a then sid ∷ rest else rest) else (if a then rest else sid ∷ rest)

unfoldable pub get_alive_servers : ℕ → HeartbeatMonitor → List String × HeartbeatMonitor
get_alive_servers now m =
    let checked = (check_server_health now m).1 in (ids_with true checked.server_status, checked)

unfoldable pub get_down_servers : ℕ → HeartbeatMonitor → List String × HeartbeatMonitor
get_down_servers now m =
    let checked = (check_server_health now m).1 in (ids_with false checked.server_status, checked)

unfoldable pub reset : HeartbeatMonitor → HeartbeatMonitor
reset m = record m { heartbeats = []; server_status = [] }

pub record Summary : Type 0 where
  pub alive_count : ℕ
  pub down_count : ℕ
  pub total_count : ℕ

unfoldable pub get_summary : ℕ → HeartbeatMonitor → Summary × HeartbeatMonitor
get_summary now m =
    let checked = (check_server_health now m).1 in
    (
      record {
        alive_count = length (ids_with true checked.server_status);
        down_count = length (ids_with false checked.server_status);
        total_count = length checked.server_status;
      },
      checked,
    )
