-- ===== src/Monitoring/Freshness.antt =====
-- What the health checker says of a server, and when it tells the callbacks.
use distributed_tickit_syste.Common.{
  ℕ, ◌≡◌, refl, ap, String, Bool, true, false, ◌||◌, Option, none, some, List, [], ◌∷◌, ◌++◌,
  if◌then◌else◌, string_key, arith,
}
use distributed_tickit_syste.Common.Dict.{Dict, lookup, insert, keys, lookup-insert}
use distributed_tickit_syste.Failover.Recovery.{contains}
use distributed_tickit_syste.Monitoring.Health.{
  ServerState, online, degraded, offline, HealthChecker, state_for, is_same, known_servers,
  missing_from, update_from, update_states, notify_all, get_state,
}

is_same_self : (s : ServerState) → is_same (some s) s ≡ true
is_same_self online = refl
is_same_self degraded = refl
is_same_self offline = refl

abbrev is_some : {A : Type 0} → Option A → Bool
is_some none = false
is_some (some x) = true

contains-append :
    (k : String) (xs ys : List String) → contains k (xs ++ ys) ≡ (contains k xs || contains k ys)
unfolding contains
contains-append k [] ys = refl
contains-append k (x ∷ xs) ys = ground (arith, contains-append k xs ys)

contains-keys :
    {V : Type 0} (k : String) (d : Dict String V) → contains k (keys d) ≡ is_some (lookup k d)
unfolding contains keys lookup
contains-keys k [] = refl
contains-keys k ((j, v) ∷ d) = ground (arith, contains-keys k d)

-- A key that is missing stays, if it is in the list.
contains-missing_from :
    (k : String) (states : Dict String ServerState) (sids : List String)
    → (contains k sids || is_some (lookup k states))
      ≡ (contains k (missing_from states sids) || is_some (lookup k states))
unfolding contains
contains-missing_from k states [] = refl
contains-missing_from k states (sid ∷ sids) = ground (arith, contains-missing_from k states sids)

-- A server is known if it has a state or a heartbeat.
contains-known_servers :
    (k : String) (c : HealthChecker)
    → contains k (known_servers c)
      ≡ (is_some (lookup k c.states) || is_some (lookup k c.last_heartbeat))
unfolding known_servers
contains-known_servers k c = ground (
  arith,
  contains-append k (keys c.states) (missing_from c.states (keys c.last_heartbeat)),
  contains-keys k c.states,
  contains-keys k c.last_heartbeat,
  contains-missing_from k c.states (keys c.last_heartbeat),
)

lookup-update_from :
    (sids : List String) (now : ℕ) (c : HealthChecker) (k : String)
    → lookup k (update_from sids now c).1.states
      ≡ (if contains k sids then some (state_for k now c) else lookup k c.states)
unfolding update_from contains state_for
lookup-update_from [] now c k = refl
lookup-update_from (sid ∷ sids) now c k = ground (
  arith,
  lookup-update_from sids now (record c { states = insert sid (state_for sid now c) c.states }) k,
  lookup-insert k sid (state_for sid now c) c.states,
)

heartbeats-update_from :
    (sids : List String) (now : ℕ) (c : HealthChecker)
    → (update_from sids now c).1.last_heartbeat ≡ c.last_heartbeat
unfolding update_from
heartbeats-update_from [] now c = refl
heartbeats-update_from (sid ∷ sids) now c = heartbeats-update_from sids now _

state_for-update_from :
    (k : String) (sids : List String) (now : ℕ) (c : HealthChecker)
    → state_for k now (update_from sids now c).1 ≡ state_for k now c
unfolding update_from state_for
state_for-update_from k [] now c = refl
state_for-update_from k (sid ∷ sids) now c =
    state_for-update_from k sids now
      (record c { states = insert sid (state_for sid now c) c.states })

-- The state that is read for a server is always the one that the age of its last heartbeat gives:
-- offline without a heartbeat, whether the server is known or not.
pub get_state_lem :
    (k : String) (now : ℕ) (c : HealthChecker) → (get_state k now c).0 ≡ state_for k now c
unfolding get_state update_states state_for
get_state_lem k now c =
    ground (arith, lookup-update_from (known_servers c) now c k, contains-known_servers k c)

told :
    (sids : List String) (now : ℕ) (c : HealthChecker) (k : String)
    → lookup k (update_from sids now c).0 ≡ (
        if contains k sids
        then (if is_same (lookup k c.states) (state_for k now c)
            then none
            else some (state_for k now c))
        else none)
unfolding update_from contains state_for lookup
told [] now c k = refl
told (sid ∷ sids) now c k = ground (
  arith,
  told sids now (record c { states = insert sid (state_for sid now c) c.states }) k,
  lookup-insert k sid (state_for sid now c) c.states,
  is_same_self (state_for sid now c),
)

-- The changes that the callbacks are told of.
abbrev pub changes_at : ℕ → HealthChecker → Dict String ServerState
changes_at now c = (update_from (known_servers c) now c).0

-- An update tells every callback of the servers whose state differs from the one that is stored,
-- and of no other server, with the state that the age of the heartbeat gives.
pub update_states_lem :
    (now : ℕ) (c : HealthChecker) (k : String)
    → ((update_states now c).0 ≡ notify_all (changes_at now c) c.callbacks)
      × (lookup k (changes_at now c) ≡ (
          if is_some (lookup k c.states) || is_some (lookup k c.last_heartbeat)
          then (if is_same (lookup k c.states) (state_for k now c)
              then none
              else some (state_for k now c))
          else none))
unfolding update_states
update_states_lem now c k =
    (refl, rw (← contains-known_servers k c) (told (known_servers c) now c k))

-- The servers all have the state that they should have.
abbrev IsUpToDate : List String → ℕ → HealthChecker → Type 0
IsUpToDate sids now c =
    (k : String) → contains k sids ≡ true → lookup k c.states ≡ some (state_for k now c)

no_changes :
    (sids : List String) (now : ℕ) (c : HealthChecker)
    → IsUpToDate sids now c
    → (update_from sids now c).0 ≡ []
unfolding update_from contains state_for
no_changes [] now c fine = refl
no_changes (sid ∷ sids) now c fine =
    let c' = record c { states = insert sid (state_for sid now c) c.states } in
    let rest = no_changes sids now c' (λ k there.
      ground (arith, lookup-insert k sid (state_for sid now c) c.states, fine k, there)) in
    ground (arith, rest, fine sid, is_same_self (state_for sid now c))

-- After an update, with `c'` what it leaves.
updated-IsUpToDate :
    (now : ℕ) (c c' : HealthChecker)
    → ((k : String)
        → lookup k c'.states
          ≡ (if contains k (known_servers c) then some (state_for k now c) else lookup k c.states))
    → c'.last_heartbeat ≡ c.last_heartbeat
    → ((k : String) → state_for k now c' ≡ state_for k now c)
    → IsUpToDate (known_servers c') now c'
updated-IsUpToDate now c c' states beats same k there = ground (
  arith,
  there,
  states k,
  ap (lookup k) beats,
  same k,
  contains-known_servers k c,
  contains-known_servers k c',
)

-- A second update at the same reading of the clock tells nobody of anything.
pub second_update_silent :
    (now : ℕ) (c : HealthChecker) → (update_states now (update_states now c).1).0 ≡ []
unfolding update_states
second_update_silent now c =
    let c' = (update_from (known_servers c) now c).1 in
    ap (λ changes. notify_all changes c'.callbacks)
      (no_changes (known_servers c') now c' (
        updated-IsUpToDate now c c' (lookup-update_from (known_servers c) now c)
          (heartbeats-update_from (known_servers c) now c)
          (λ k. state_for-update_from k (known_servers c) now c)))
