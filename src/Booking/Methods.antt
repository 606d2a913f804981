-- ===== src/Booking/Methods.antt =====
-- dashboard.py: the other methods of DistributedTicketWebApp that change its state.
use distributed_tickit_syste.Common.{
  ℕ, ◌+◌, String, true, false, not, none, some, List, [], ◌∷◌, ite, string_same, if◌then◌else◌,
  nat_key, string_key,
}
use distributed_tickit_syste.Common.Dict.{Dict, lookup, insert}
use distributed_tickit_syste.Monitoring.Heartbeat.{record_heartbeat}
use distributed_tickit_syste.Failover.Manager.{update_health}
use distributed_tickit_syste.Failover.Recovery.{
  mark_recovered, rejoin_cluster, receive_sync_updates,
}
use distributed_tickit_syste.Telemetry
use distributed_tickit_syste.Sync.SeatState.{SeatState, SeatStateType}
use distributed_tickit_syste.Sync.SeatState
use distributed_tickit_syste.Sync.StateStore.{StateStore, initialize_seats, list_seats}
use distributed_tickit_syste.Sync.StateStore
use distributed_tickit_syste.Sync.Replicator.{StateReplicator, apply_remote_update}
use distributed_tickit_syste.Sync.Replicator
use distributed_tickit_syste.Sync.Simulator.{
  EventualConsistencySimulator, set_sync_callback, deliver_update, Timer,
}
use distributed_tickit_syste.Sync.Simulator
use distributed_tickit_syste.Booking.Desk
use distributed_tickit_syste.Booking.Desk.{
  Seat, Desk, Reply, done, not_locked, lease_expired, expire_leases_locked,
}
use distributed_tickit_syste.Booking.Routing.{name_of, strategy_for}
use distributed_tickit_syste.Booking.App.{App}
use distributed_tickit_syste.Booking.Book.{replicate}

-- `_fail` counts a failure.
abbrev pub count_failure : App → App
count_failure a = record a { failure_count = a.failure_count + 1 }

-- `seat["server"] or "Server 1"` is computed by the source and not used, so it is left out.
unfoldable pub confirm_seat :
    (now : ℕ) (stamp : String) (delays : String → ℕ) (seat_id : ℕ) → App → Reply Seat × App
unfolding replicate
confirm_seat now stamp delays seat_id a =
    let (reply, desk) = Desk.confirm_seat now seat_id a.desk in
    let a' = record a { desk = desk } in
    (
      reply,
      elim reply [
        | done seat ↦ replicate stamp delays seat_id SeatState.reserved seat.owner a'
        | not_locked ↦ count_failure a'
        | lease_expired ↦ count_failure a'
      ],
    )

unfoldable pub cancel_lock : (seat_id : ℕ) → App → Reply (Unit {0}) × App
cancel_lock seat_id a =
    let (reply, desk) = Desk.cancel_lock seat_id a.desk in
    let a' = record a { desk = desk } in
    (
      reply,
      elim reply [ done u ↦ a' | not_locked ↦ count_failure a' | lease_expired ↦ count_failure a' ],
    )

unfoldable pub renew_lease : (now later asked seat_id : ℕ) → App → Reply ℕ × App
renew_lease now later asked seat_id a =
    let (reply, desk) = Desk.renew_lease now later asked seat_id a.desk in
    let a' = record a { desk = desk } in
    (
      reply,
      elim reply [
        | done left ↦ a'
        | not_locked ↦ count_failure a'
        | lease_expired ↦ count_failure a'
      ],
    )

abbrev pub server_ids : List String
server_ids = "Server 1" ∷ "Server 2" ∷ "Server 3" ∷ []

-- The stores and replicators that `_initialize_synchronization` makes; `stamps` has the time of each
-- seat of each server.
abbrev pub replicators_for : (String → ℕ → String) → List String → Dict String StateReplicator
replicators_for stamps [] = []
replicators_for stamps (sid ∷ ids) =
    (sid, Replicator.init (initialize_seats 20 (stamps sid) (StateStore.init sid)) server_ids)
    ∷ replicators_for stamps ids

-- The primary is the replicator of "Server 1", whose peers are the other two.
unfoldable pub initialize_synchronization : (String → ℕ → String) → App → App
unfolding Replicator.init StateStore.init initialize_seats Simulator.init set_sync_callback
initialize_synchronization stamps a = record a {
  replicators = replicators_for stamps server_ids;
  consistency_simulator =
      set_sync_callback (Simulator.init (Replicator.other_servers "Server 1" server_ids) 150 900);
}

unfoldable pub reset : (String → ℕ → String) → App → App
unfolding Desk.reset initialize_synchronization
reset stamps a = initialize_synchronization stamps (record a {
  desk = Desk.reset a.desk;
  success_count = 0;
  failure_count = 0;
  request_timestamps = [];
  metrics_collector = Telemetry.clear a.metrics_collector;
})

-- `set_strategy`: a new strategy object, with no memory of the one before.
unfoldable pub set_strategy : String → App → App
set_strategy name a = record a { strategy = strategy_for (name_of name) }

-- `_on_sync_delivered`, the callback of the simulator, on the thread of the timer. A peer without a
-- replicator is a `KeyError`, which the simulator logs.
unfoldable pub on_sync_delivered : (peer_id : String) → SeatState → App → App
on_sync_delivered peer_id seat a = elim (lookup peer_id a.replicators) [
  | none ↦ a
  | some replicator ↦ record a {
    replicators = insert peer_id (apply_remote_update seat replicator) a.replicators;
  }
]

unfoldable pub deliver : Timer → App → App
deliver timer a =
    on_sync_delivered timer.peer_id timer.seat
      (record a { consistency_simulator = (deliver_update timer a.consistency_simulator).1 })

-- `_apply_recovery_sync_update` for each of the updates, which the recovery manager hands out.
unfoldable pub apply_recovery : String → List SeatState → App → App
unfolding on_sync_delivered
apply_recovery server_id [] a = a
apply_recovery server_id (seat ∷ updates) a =
    apply_recovery server_id updates (on_sync_delivered server_id seat a)

-- The seats of the store of "Server 1".
abbrev pub primary_seats : App → List SeatState
primary_seats a = elim (lookup "Server 1" a.replicators) [
  | none ↦ []
  | some primary ↦ list_seats primary.local_store
]

-- The readings of the clock when a server is switched on.
pub record ToggleReadings : Type 0 where
  pub beat_at : ℕ
  pub healthy_at : ℕ
  pub recovered_at : ℕ
  pub rejoined_at : ℕ
  pub synced_at : ℕ

unfoldable pub switch_on : ToggleReadings → String → App → App
unfolding apply_recovery
switch_on r sid a =
    let recovered = (mark_recovered sid "manual toggle" r.recovered_at a.recovery_manager).1 in
    let rejoined = (rejoin_cluster sid r.rejoined_at recovered).1 in
    let a' = record a {
      heartbeat_monitor = (record_heartbeat sid r.beat_at a.heartbeat_monitor).1;
      failover_manager =
          (update_health sid true r.healthy_at "manual recovery" a.failover_manager).1;
      recovery_manager = rejoined;
    } in
    ite (string_same sid "Server 1") a' (
      apply_recovery sid (primary_seats a) (record a' {
        recovery_manager = (receive_sync_updates sid (primary_seats a) r.synced_at rejoined).1;
      }))

unfoldable pub toggle_server : ToggleReadings → String → App → App
unfolding switch_on
toggle_server r sid a = elim (lookup sid a.servers) [
  | none ↦ a
  | some server ↦
      let a' = record a {
        servers = insert sid (record server { online = not server.online }) a.servers;
      } in
      if server.online
      then record a' {
        failover_manager =
            (update_health sid false r.healthy_at "manual offline" a.failover_manager).1;
      }
      else switch_on r sid a'
]
