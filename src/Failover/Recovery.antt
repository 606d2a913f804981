-- ===== src/Failover/Recovery.antt =====
-- failover/recovery_manager.py: servers that come back into the cluster and catch up. The set of
-- members is a list without repetition, a callback is a number, and each operation also returns the
-- callbacks that it calls, in order. What a callback raises is caught by the source.
use distributed_tickit_syste.Common.{
  ℕ, String, Bool, true, false, none, some, List, [], ◌∷◌, ◌++◌, map, if◌then◌else◌, ite,
  string_same, string_key,
}
use distributed_tickit_syste.Common.Dict.{Dict, lookup, insert}
use distributed_tickit_syste.Sync.SeatState.{SeatState}

pub record ServerRecoveryState : Type 0 where
  pub server_id : String
  pub recovered : Bool
  pub joined_cluster : Bool
  pub last_recovery_time : ℕ
  pub last_reason : String

abbrev pub fresh : String → ServerRecoveryState
fresh server_id = record {
  server_id = server_id;
  recovered = false;
  joined_cluster = false;
  last_recovery_time = 0;
  last_reason = "";
}

pub data Event : Type 0 where
  recovery_called : ℕ → String → Event
  join_called : ℕ → String → Event
  sync_called : ℕ → String → SeatState → Event

pub record RecoveryManager : Type 0 where
  pub states : Dict String ServerRecoveryState
  pub cluster_members : List String
  pub recovery_callbacks : List ℕ
  pub join_callbacks : List ℕ
  pub sync_callbacks : List ℕ

abbrev pub init : RecoveryManager
init = record {
  states = [];
  cluster_members = [];
  recovery_callbacks = [];
  join_callbacks = [];
  sync_callbacks = [];
}

-- `sorted` is Python's.
abbrev pub get_cluster_members : (List String → List String) → RecoveryManager → List String
get_cluster_members sorted m = sorted m.cluster_members

unfoldable pub register_recovery_callback : ℕ → RecoveryManager → RecoveryManager
register_recovery_callback callback m = record m {
  recovery_callbacks = m.recovery_callbacks ++ callback ∷ [];
}

unfoldable pub register_join_callback : ℕ → RecoveryManager → RecoveryManager
register_join_callback callback m = record m { join_callbacks = m.join_callbacks ++ callback ∷ [] }

unfoldable pub register_sync_callback : ℕ → RecoveryManager → RecoveryManager
register_sync_callback callback m = record m { sync_callbacks = m.sync_callbacks ++ callback ∷ [] }

-- `server_id in members`
unfoldable pub contains : String → List String → Bool
contains sid [] = false
contains sid (x ∷ members) = ite (string_same x sid) true (contains sid members)

-- `members.add(server_id)`
abbrev pub add : String → List String → List String
add sid members = if contains sid members then members else members ++ sid ∷ []

abbrev pub state_of : String → RecoveryManager → ServerRecoveryState
state_of sid m = elim (lookup sid m.states) [ none ↦ fresh sid | some s ↦ s ]

abbrev pub store : String → ServerRecoveryState → RecoveryManager → RecoveryManager
store sid s m = record m { states = insert sid s m.states }

-- `now` is the reading `time.time()`.
unfoldable pub mark_recovered :
    String → (reason : String) → (now : ℕ) → RecoveryManager → List Event × RecoveryManager
mark_recovered sid reason now m = (
  map (λ callback. recovery_called callback sid) m.recovery_callbacks,
  store sid
      (record (state_of sid m) { recovered = true; last_recovery_time = now; last_reason = reason })
      m,
)

-- The second part of `rejoin_cluster`. The peers are only logged.
unfoldable pub join : String → RecoveryManager → List Event × RecoveryManager
join sid m = (
  map (λ callback. join_called callback sid) m.join_callbacks,
  record (store sid (record (state_of sid m) { joined_cluster = true }) m) {
    cluster_members = add sid m.cluster_members;
  },
)

unfoldable pub rejoin_cluster : String → ℕ → RecoveryManager → List Event × RecoveryManager
rejoin_cluster sid now m =
    if (state_of sid m).recovered
    then join sid m
    else (let marked = mark_recovered sid "rejoin requested" now m in
        let joined = join sid marked.1 in (marked.0 ++ joined.0, joined.1))

-- The loop over the updates, every one given to every callback.
unfoldable pub deliver : String → List SeatState → RecoveryManager → List Event
deliver sid [] m = []
deliver sid (seat ∷ updates) m =
    map (λ callback. sync_called callback sid seat) m.sync_callbacks ++ deliver sid updates m

unfoldable pub receive_sync_updates :
    String → List SeatState → ℕ → RecoveryManager → List Event × RecoveryManager
receive_sync_updates sid updates now m =
    if (state_of sid m).joined_cluster
    then (deliver sid updates m, store sid (state_of sid m) m)
    else (let joined = rejoin_cluster sid now m in
        (joined.0 ++ deliver sid updates joined.1, joined.1))

unfoldable pub is_in_cluster : String → RecoveryManager → Bool
is_in_cluster sid m = contains sid m.cluster_members

unfoldable pub get_recovery_state : String → RecoveryManager → ServerRecoveryState × RecoveryManager
get_recovery_state sid m = (state_of sid m, store sid (state_of sid m) m)
