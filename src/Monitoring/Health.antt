-- ===== src/Monitoring/Health.antt =====
-- monitoring/health_checker.py: the state of each server by the age of its last heartbeat. Times are
-- whole milliseconds of the monotonic clock. A callback is a number; an operation that calls them
-- also returns the calls in order. A set is a list without repetition. The thread that calls
-- `update_states` again and again is in Monitoring/Background.
use distributed_tickit_syste.Common.{
  ℕ, zero, suc, ◌-◌, String, Bool, true, false, Option, none, some, List, [], ◌∷◌, ◌++◌, map, leb,
  if◌then◌else◌, string_key,
}
use distributed_tickit_syste.Common.Int.{ℤ, pos, negsuc}
use distributed_tickit_syste.Common.Dict.{Dict, lookup, insert, keys}
use distributed_tickit_syste.Monitoring.Heartbeat.{remove}

pub data ServerState : Type 0 where
  online degraded offline : ServerState

pub record ServerHealth : Type 0 where
  pub server_id : String
  pub state : ServerState
  pub last_heartbeat_age : Option ℕ

pub record HealthChecker : Type 0 where
  pub degraded_after : ℕ
  pub offline_after : ℕ
  pub check_interval : ℕ
  pub last_heartbeat : Dict String ℕ
  pub states : Dict String ServerState
  pub callbacks : List ℕ

-- The three `ValueError`s of `__init__`.
pub data ConfigError : Type 0 where
  degraded_negative offline_not_greater interval_not_positive : ConfigError

pub data Config : Type 0 where
  made : HealthChecker → Config
  value_error : ConfigError → Config

abbrev pub new_checker : (degraded_after offline_after check_interval : ℕ) → HealthChecker
new_checker d o c = record {
  degraded_after = d;
  offline_after = o;
  check_interval = c;
  last_heartbeat = [];
  states = [];
  callbacks = [];
}

abbrev pub with_interval : (degraded_after offline_after : ℕ) → (check_interval : ℤ) → Config
with_interval d o (pos zero) = value_error interval_not_positive
with_interval d o (pos (suc c)) = made (new_checker d o (suc c))
with_interval d o (negsuc c) = value_error interval_not_positive

unfoldable pub init : (degraded_after offline_after check_interval : ℤ) → Config
init (negsuc d) o c = value_error degraded_negative
init (pos d) (negsuc o) c = value_error offline_not_greater
init (pos d) (pos o) c = if leb o d then value_error offline_not_greater else with_interval d o c

abbrev pub by_age : HealthChecker → ℕ → ServerState
by_age c age =
    if leb age c.degraded_after
    then online
    else if leb age c.offline_after
    then degraded
    else offline

-- `_state_for`; `max(0.0, now - heartbeat_at)` is the subtraction of ℕ.
unfoldable pub state_for : String → ℕ → HealthChecker → ServerState
state_for sid now c = elim (lookup sid c.last_heartbeat) [
  | none ↦ offline
  | some heartbeat_at ↦ by_age c (now - heartbeat_at)
]

-- `previous == state`
abbrev pub is_same : Option ServerState → ServerState → Bool
is_same none s = false
is_same (some online) s = elim s [ online ↦ true | _ ↦ false ]
is_same (some degraded) s = elim s [ degraded ↦ true | _ ↦ false ]
is_same (some offline) s = elim s [ offline ↦ true | _ ↦ false ]

-- A call of a callback.
pub record Notice : Type 0 where
  pub callback : ℕ
  pub server_id : String
  pub state : ServerState

abbrev pub notify : String → ServerState → List ℕ → List Notice
notify sid state callbacks =
    map (λ callback. record { callback = callback; server_id = sid; state = state }) callbacks

unfoldable pub register_server : String → HealthChecker → HealthChecker
register_server sid c = elim (lookup sid c.states) [
  | none ↦ record c { states = insert sid offline c.states }
  | some state ↦ c
]

unfoldable pub record_heartbeat : String → (now : ℕ) → HealthChecker → List Notice × HealthChecker
record_heartbeat sid now c = (
  if is_same (lookup sid c.states) online then [] else notify sid online c.callbacks,
  record c {
    last_heartbeat = insert sid now c.last_heartbeat;
    states = insert sid online c.states;
  },
)

-- `set(self._states) | set(self._last_heartbeat)`
abbrev pub missing_from : Dict String ServerState → List String → List String
missing_from states [] = []
missing_from states (sid ∷ sids) = elim (lookup sid states) [
  | none ↦ sid ∷ missing_from states sids
  | some state ↦ missing_from states sids
]

unfoldable pub known_servers : HealthChecker → List String
known_servers c = keys c.states ++ missing_from c.states (keys c.last_heartbeat)

-- The loop of `update_states` over the servers that are left: the changes, in order.
unfoldable pub update_from :
    List String → ℕ → HealthChecker → Dict String ServerState × HealthChecker
update_from [] now c = ([], c)
update_from (sid ∷ sids) now c =
    let new_state = state_for sid now c in
    let (changes, c') =
      update_from sids now (record c { states = insert sid new_state c.states }) in
    (if is_same (lookup sid c.states) new_state then changes else (sid, new_state) ∷ changes, c')

abbrev pub notify_all : Dict String ServerState → List ℕ → List Notice
notify_all [] callbacks = []
notify_all ((sid, state) ∷ changes) callbacks =
    notify sid state callbacks ++ notify_all changes callbacks

unfoldable pub update_states : (now : ℕ) → HealthChecker → List Notice × HealthChecker
update_states now c =
    let (changes, c') = update_from (known_servers c) now c in (notify_all changes c.callbacks, c')

-- The passes of `_run` at the given readings of the clock.
unfoldable pub run : List ℕ → HealthChecker → List Notice × HealthChecker
unfolding update_states
run [] c = ([], c)
run (now ∷ times) c =
    let (notices, c') = update_states now c in
    let (notices', c'') = run times c' in (notices ++ notices', c'')

abbrev pub state_or_offline : Option ServerState → ServerState
state_or_offline none = offline
state_or_offline (some state) = state

unfoldable pub get_state : String → (now : ℕ) → HealthChecker → ServerState × HealthChecker
get_state sid now c =
    let c' = (update_states now c).1 in (state_or_offline (lookup sid c'.states), c')

abbrev pub age_at : ℕ → Option ℕ → Option ℕ
age_at now none = none
age_at now (some heartbeat_at) = some (now - heartbeat_at)

-- `later` is the second reading of the clock.
unfoldable pub get_health : String → (now later : ℕ) → HealthChecker → ServerHealth × HealthChecker
get_health sid now later c =
    let c' = (update_states now c).1 in
    (
      record {
        server_id = sid;
        state = state_or_offline (lookup sid c'.states);
        last_heartbeat_age = age_at later (lookup sid c'.last_heartbeat);
      },
      c',
    )

abbrev pub healths : ℕ → Dict String ℕ → Dict String ServerState → Dict String ServerHealth
healths later heartbeats [] = []
healths later heartbeats ((sid, state) ∷ states) =
    (
      sid,
      record {
        server_id = sid;
        state = state;
        last_heartbeat_age = age_at later (lookup sid heartbeats);
      },
    )
    ∷ healths later heartbeats states

unfoldable pub get_all_health :
    (now later : ℕ) → HealthChecker → Dict String ServerHealth × HealthChecker
get_all_health now later c =
    let c' = (update_states now c).1 in (healths later c'.last_heartbeat c'.states, c')

abbrev pub ids_in : ServerState → Dict String ServerState → List String
ids_in state [] = []
ids_in state ((sid, current) ∷ states) =
    let rest = ids_in state states in if is_same (some current) state then sid ∷ rest else rest

unfoldable pub get_servers_by_state :
    ServerState → (now : ℕ) → HealthChecker → List String × HealthChecker
get_servers_by_state state now c = let c' = (update_states now c).1 in (ids_in state c'.states, c')

unfoldable pub register_callback : ℕ → HealthChecker → HealthChecker
register_callback callback c = record c { callbacks = c.callbacks ++ callback ∷ [] }

unfoldable pub unregister_callback : ℕ → HealthChecker → HealthChecker
unregister_callback callback c = record c { callbacks = remove callback c.callbacks }

unfoldable pub reset : HealthChecker → HealthChecker
reset c = record c { last_heartbeat = []; states = [] }
