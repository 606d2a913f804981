-- ===== src/Booking/Init.antt =====
-- dashboard.py: `__init__`, the app that the process starts with. The callbacks of the breakers and
-- of the recovery manager change nothing of the app that is modelled here, or are in
-- `apply_recovery`.
use distributed_tickit_syste.Common.{
  ℕ, zero, suc, String, true, some, List, [], ◌∷◌, map, nat_key, string_key,
}
use distributed_tickit_syste.Common.Dict.{Dict}
use distributed_tickit_syste.Locking
use distributed_tickit_syste.Circuit.Breaker
use distributed_tickit_syste.Circuit.Breaker.{Breaker}
use distributed_tickit_syste.Monitoring.Heartbeat
use distributed_tickit_syste.Failover.Manager
use distributed_tickit_syste.Failover.Recovery
use distributed_tickit_syste.Telemetry
use distributed_tickit_syste.Sync.Simulator
use distributed_tickit_syste.Booking.Desk.{Seat, free_seat}
use distributed_tickit_syste.Booking.Routing.{by_rotation, strategy_for}
use distributed_tickit_syste.Booking.App.{App, Server}
use distributed_tickit_syste.Booking.Methods.{server_ids, initialize_synchronization}

-- What `random` draws for each server, and the readings of the clock.
pub record InitReadings : Type 0 where
  pub cpu : String → ℕ
  pub connections : String → ℕ
  pub response_time : String → ℕ
  pub beat_at : String → ℕ
  pub healthy_at : String → ℕ
  pub stamps : String → ℕ → String

-- The seats from a number on.
unfoldable pub seats_from : (rounds seat_id : ℕ) → Dict ℕ Seat
seats_from zero seat_id = []
seats_from (suc rounds) seat_id = (seat_id, free_seat) ∷ seats_from rounds (suc seat_id)

abbrev pub new_server : InitReadings → String → Server
new_server r sid = record {
  online = true;
  cpu = r.cpu sid;
  connections = r.connections sid;
  response_time = r.response_time sid;
  requests = 0;
}

unfoldable pub new_breaker : Breaker
unfolding Breaker.init
new_breaker = Breaker.init 3 60 60000 8000 1 (some [])

unfoldable pub record_initial_heartbeats : InitReadings → List String → App → App
record_initial_heartbeats r [] a = a
record_initial_heartbeats r (sid ∷ ids) a =
    let beaten = Heartbeat.record_heartbeat sid (r.beat_at sid) a.heartbeat_monitor in
    let healthy =
      Manager.update_health sid true (r.healthy_at sid) "initial heartbeat" a.failover_manager in
    record_initial_heartbeats r ids
      (record a { heartbeat_monitor = beaten.1; failover_manager = healthy.1 })

-- The state before the stores are made; the simulator is made with them.
abbrev pub before_synchronization : InitReadings → App
before_synchronization r = record {
  desk = record { seats = seats_from 20 1; lease_manager = Locking.init 30000 };
  servers = map (λ sid. (sid, new_server r sid)) server_ids;
  breakers = map (λ sid. (sid, new_breaker)) server_ids;
  heartbeat_monitor = Heartbeat.init 15000;
  failover_manager = Manager.init 2 2;
  recovery_manager = Recovery.register_sync_callback 0 Recovery.init;
  metrics_collector = Telemetry.init;
  strategy = strategy_for by_rotation;
  replicators = [];
  consistency_simulator = Simulator.init [] 150 900;
  request_timestamps = [];
  success_count = 0;
  failure_count = 0;
}

unfoldable pub init : InitReadings → App
unfolding seats_from new_breaker record_initial_heartbeats initialize_synchronization Locking.init
    Heartbeat.init Manager.init Recovery.register_sync_callback Simulator.init strategy_for
init r =
    record_initial_heartbeats r server_ids
      (initialize_synchronization r.stamps (before_synchronization r))
