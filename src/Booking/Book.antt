-- ===== src/Booking/Book.antt =====
-- dashboard.py: `_book_locked` and what it calls.
use distributed_tickit_syste.Common.{
  ℕ, ◌+◌, ◌⊎◌, inl, inr, String, Bool, Option, none, some, List, [], ◌∷◌, ◌++◌, ite, string_same,
  if◌then◌else◌, nat_key, string_key,
}
use Prim.Native.String.{◌++◌ as str_append}
use distributed_tickit_syste.Common.Decimal.{str}
use distributed_tickit_syste.Common.Dict.{Dict, lookup, insert}
use distributed_tickit_syste.Locking.{ok, raise}
use distributed_tickit_syste.Circuit.StateMachine.{Outcome, returned, raised, circuit_open}
use distributed_tickit_syste.Circuit.Breaker
use distributed_tickit_syste.Circuit.Breaker.{Breaker, Readings}
use distributed_tickit_syste.Balancer.Metrics.{ServerMetrics}
use distributed_tickit_syste.Failover.Manager.{choose_failover_target}
use distributed_tickit_syste.Sync.SeatState.{SeatState, SeatStateType}
use distributed_tickit_syste.Sync.SeatState
use distributed_tickit_syste.Sync.StateStore.{update_seat}
use distributed_tickit_syste.Sync.Simulator.{broadcast_with_delay}
use distributed_tickit_syste.Booking.Desk.{
  available, locked, reserved, Seat, expire_leases_locked, lease_seat,
}
use distributed_tickit_syste.Booking.Routing
use distributed_tickit_syste.Booking.App.{
  App, Action, Reply, done, fails, pure, fail, ◌>>=◌, ◌>>◌, or_key_error, breaker_of, put_breaker,
  BookingError, transient, not_retryable, lease_conflict, key_error, no_seat, already_reserved,
  currently_leased, no_server, circuit_is_open, server_offline, simulated_failure, key_missing,
  lease_refused, MetricReadings, current_metrics,
}

-- The readings of the clock, the random draw and the uuid of one booking.
pub record BookReadings : Type 0 where
  pub started_at : ℕ
  pub expired_at : ℕ
  pub metrics : MetricReadings
  pub allowed_at : ℕ
  pub target_allowed_at : ℕ
  pub call_at : ℕ
  pub call_after : Readings
  pub offline_failure : Readings
  -- `random.random() < 0.2`
  pub draw_fails : Bool
  pub uuid : String
  pub lease_now : ℕ
  pub lease_later : ℕ
  pub stamp : String
  pub delays : String → ℕ
  pub routed_at : ℕ

-- The expiry and the time stamp with which a booking begins.
abbrev pub begin_booking : BookReadings → Action (Unit {0})
begin_booking r a = (
  done tt,
  record a {
    desk = expire_leases_locked r.expired_at a.desk;
    request_timestamps = a.request_timestamps ++ r.started_at ∷ [];
  },
)

-- The three tests of the seat.
abbrev pub check_state : ℕ → Option Seat → Action (Unit {0})
check_state seat_id none = fail (not_retryable (no_seat seat_id))
check_state seat_id (some seat) = elim seat.state [
  | available ↦ pure tt
  | locked ↦ fail (not_retryable (currently_leased seat_id))
  | reserved ↦ fail (not_retryable (already_reserved seat_id))
]

unfoldable pub check_seat : ℕ → Action (Unit {0})
check_seat seat_id a = check_state seat_id (lookup seat_id a.desk.seats) a

-- `load_balancer.select`; an empty id counts as none.
abbrev pub or_no_server : Option String → Action String
or_no_server none = fail (not_retryable no_server)
or_no_server (some server_id) =
    ite (string_same server_id "") (fail (not_retryable no_server)) (pure server_id)

unfoldable pub select_server : (String → ℕ) → List ServerMetrics → ℕ → Action String
select_server hash metrics seat_id a =
    let (chosen, strategy) =
      Routing.select hash metrics (some (str_append "seat-" (str seat_id))) a.strategy in
    or_no_server chosen (record a { strategy = strategy })

-- `self.breakers[server_id].allow_request()`
unfoldable pub allow_request : ℕ → String → Action Bool
allow_request now server_id a = elim (lookup server_id a.breakers) [
  | none ↦ (fails (key_error server_id), a)
  | some b ↦
      let (allowed, b') = Breaker.allow_request now b in (done allowed, put_breaker server_id b' a)
]

-- `not target or target == selected`
abbrev pub other_target : String → Option String → Option String
other_target selected none = none
other_target selected (some target) =
    ite (string_same target "") none (ite (string_same target selected) none (some target))

abbrev pub redirect : ℕ → String → Option String → Action String
redirect now selected none = fail (not_retryable (circuit_is_open selected))
redirect now selected (some target) = do
  allowed ← allow_request now target
  if allowed then pure target else fail (not_retryable (circuit_is_open selected))

unfoldable pub select_circuit_safe_server :
    BookReadings → String → List ServerMetrics → Action String
unfolding allow_request
select_circuit_safe_server r selected metrics a =
    (allow_request r.allowed_at selected >>= λ allowed. if allowed then pure selected else (λ a'.
        redirect r.target_allowed_at selected
          (other_target selected (choose_failover_target metrics a'.failover_manager)) a'))
      a

-- The change of the seat in the store of "Server 1", and its broadcast. `init` makes this store, and
-- no method removes it.
unfoldable pub replicate :
    (stamp : String) → (String → ℕ) → ℕ → SeatStateType → (owner : String) → App → App
replicate stamp delays seat_id state owner a = elim (lookup "Server 1" a.replicators) [
  | none ↦ a
  | some primary ↦
      let (updated, store) = update_seat seat_id state owner stamp primary.local_store in
      let a' = record a {
        replicators = insert "Server 1" (record primary { local_store = store }) a.replicators;
      } in
      elim updated [
        | none ↦ a'
        | some seat ↦ record a' {
          consistency_simulator = broadcast_with_delay delays seat a'.consistency_simulator;
        }
      ]
]

-- The lease, the seat and the store in `_reserve_on_server`.
unfoldable pub take_lease : BookReadings → ℕ → (requester server_id : String) → Action (Unit {0})
unfolding replicate
take_lease r seat_id requester server_id a =
    let (result, desk) =
      lease_seat r.uuid r.lease_now r.lease_later seat_id requester server_id a.desk in
    elim result [
      | raise e ↦ (fails (lease_conflict e), record a { desk = desk })
      | ok lease ↦ (
        done tt,
        replicate r.stamp r.delays seat_id SeatState.locked requester (record a { desk = desk }),
      )
    ]

abbrev pub fail_offline : BookReadings → String → Action (Unit {0})
fail_offline r server_id = do
  b ← breaker_of server_id
  (λ a. (
    fails (transient (server_offline server_id)),
    put_breaker server_id (Breaker.record_failure r.offline_failure b) a,
  ))

unfoldable pub reserve_on_server :
    BookReadings → ℕ → (requester server_id : String) → Action (Unit {0})
unfolding take_lease
reserve_on_server r seat_id requester server_id a =
    (or_key_error server_id (lookup server_id a.servers) >>= λ server.
    if server.online
    then (if r.draw_fails
        then fail (transient (simulated_failure server_id))
        else take_lease r seat_id requester server_id)
    else fail_offline r server_id)
      a

-- What an exception out of `breaker.call` becomes.
abbrev pub translate : BookingError → BookingError
translate (transient reason) = transient reason
translate (not_retryable reason) = transient reason
translate (lease_conflict e) = not_retryable (lease_refused e)
translate (key_error key) = transient (key_missing key)

-- A step of the app as a function that the breaker calls: the app, and what it raises.
abbrev pub as_function : Reply (Unit {0}) × App → App ⊎ (BookingError × App)
as_function (done x, a) = inl a
as_function (fails e, a) = inr (e, a)

abbrev pub breaker_or : String → App → Breaker → Breaker
breaker_or server_id a b = elim (lookup server_id a.breakers) [ none ↦ b | some b' ↦ b' ]

abbrev pub guarded :
    String → Action (Unit {0}) → App → Breaker → (App ⊎ (BookingError × App)) × Breaker
guarded server_id m a b =
    let result = m (put_breaker server_id b a) in
    (as_function result, breaker_or server_id result.1 b)

-- The `try` statement around `breaker.call`, by its outcome.
abbrev pub settle_booking :
    String → App → Outcome App (BookingError × App) × Breaker → Reply (Unit {0}) × App
settle_booking server_id a (returned a', b) = (done tt, put_breaker server_id b a')
settle_booking server_id a (raised (e, a'), b) = (fails (translate e), put_breaker server_id b a')
settle_booking server_id a (circuit_open, b) =
    (fails (not_retryable (circuit_is_open server_id)), put_breaker server_id b a)

unfoldable pub call_breaker : BookReadings → String → Action (Unit {0}) → Action (Unit {0})
call_breaker r server_id m a =
    (breaker_of server_id >>= λ b a'.
    settle_booking server_id a' (Breaker.call r.call_at r.call_after (guarded server_id m a') b))
      a

-- The breakers after `breaker.get_state()`.
abbrev pub state_read : ℕ → String → Dict String Breaker → Dict String Breaker
state_read now server_id breakers = elim (lookup server_id breakers) [
  | none ↦ breakers
  | some b ↦ insert server_id (Breaker.get_state now b).1 breakers
]

-- The counters of a booking that has gone through. The server and its breaker have been found
-- before.
unfoldable pub count_success : (routed_at : ℕ) → String → Action String
count_success routed_at server_id a = (
  done server_id,
  record a {
    servers = elim (lookup server_id a.servers) [
      | none ↦ a.servers
      | some server ↦ insert server_id (record server { requests = server.requests + 1 }) a.servers
    ];
    success_count = a.success_count + 1;
    breakers = state_read routed_at server_id a.breakers;
  },
)

-- The server that the seat has been leased through.
unfoldable pub book_locked :
    (hash : String → ℕ) → BookReadings → (seat_id : ℕ) → (requester : String) → Action String
unfolding check_seat select_server select_circuit_safe_server reserve_on_server call_breaker
    count_success
book_locked hash r seat_id requester = do
  begin_booking r
  check_seat seat_id
  metrics ← current_metrics r.metrics
  chosen ← select_server hash metrics seat_id
  selected ← select_circuit_safe_server r chosen metrics
  call_breaker r selected (reserve_on_server r seat_id requester selected)
  count_success r.routed_at selected
