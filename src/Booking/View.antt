-- ===== src/Booking/View.antt =====
-- dashboard.py: the view of the state that `snapshot` returns, read from the app at the point of the
-- method at which each part of it is read. `sorted` and `strftime` are Python's. The names of the
-- strategies, the log and the telemetry events are not part of it.
use distributed_tickit_syste.Common.{
  ℕ, zero, suc, ◌+◌, ◌-◌, ◌*◌, ◌/◌, ◌≡◌, refl, String, Option, none, some, List, [], ◌∷◌, map,
  filter, length, max, arith, nat_key, string_key, ◌⊎◌, inl, inr,
}
use distributed_tickit_syste.Common.Rounding.{round, round-sum}
use distributed_tickit_syste.Common.Dict.{Dict, lookup}
use distributed_tickit_syste.Circuit.StateMachine.{CircuitState}
use distributed_tickit_syste.Circuit.Breaker
use distributed_tickit_syste.Circuit.Breaker.{Breaker}
use distributed_tickit_syste.Balancer.Metrics.{ServerMetrics, Status, is_online}
use distributed_tickit_syste.Monitoring.Status.{HealthInfo}
use distributed_tickit_syste.Failover.Manager
use distributed_tickit_syste.Failover.Manager.{ServerFailoverState}
use distributed_tickit_syste.Failover.Recovery.{get_cluster_members}
use distributed_tickit_syste.Telemetry.Summary
use distributed_tickit_syste.Sync.SeatState.{SeatState}
use distributed_tickit_syste.Sync.StateStore.{list_seats}
use distributed_tickit_syste.Sync.Replicator.{StateReplicator}
use distributed_tickit_syste.Sync.Simulator.{get_pending_count}
use distributed_tickit_syste.Booking.Desk.{Seat}
use distributed_tickit_syste.Booking.App.{App, Server}
use distributed_tickit_syste.Booking.Snapshot.{SnapshotReadings, read_server}

-- One entry of "seats"; `remaining` is in whole seconds.
pub record SeatView : Type 0 where
  pub seat : Seat
  pub seat_id : ℕ
  pub remaining : ℕ

-- `max(0, int(expires_at - now))`: the difference stops at 0.
unfoldable pub seats_view : (now : ℕ) → Dict ℕ Seat → List SeatView
seats_view now [] = []
seats_view now ((seat_id, seat) ∷ seats) =
    record { seat = seat; seat_id = seat_id; remaining = (seat.expires_at - now) / 1000 }
    ∷ seats_view now seats

-- One entry of "servers"; `failure_pct` is in tenths of a percent.
pub record ServerView : Type 0 where
  pub server : Server
  pub server_id : String
  pub status : Status
  pub breaker : CircuitState
  pub failure_pct : ℕ
  pub heartbeat : Option HealthInfo
  pub failover : ServerFailoverState

-- The view of one server, from the app before `read_server`; `none` is a `KeyError`.
unfoldable pub server_view :
    SnapshotReadings → Dict String HealthInfo → ServerMetrics → App → Option ServerView
server_view r heartbeat metric a = elim (lookup metric.server_id a.servers) [
  | none ↦ none
  | some server ↦ elim (lookup metric.server_id a.breakers) [
    | none ↦ none
    | some b ↦ some (viewed server b)
  ]
]
  where
    viewed : Server → Breaker → ServerView
    viewed server b =
        let (state, read) = Breaker.get_state (r.state_at metric.server_id) b in
        let (rate, _) = Breaker.failure_percentage (r.rate_at metric.server_id) read in
        record {
          server = server;
          server_id = metric.server_id;
          status = metric.status;
          breaker = state;
          failure_pct = round (10 * rate.numerator) rate.denominator;
          heartbeat = lookup metric.server_id heartbeat;
          failover = (Manager.get_state metric.server_id a.failover_manager).0;
        }

-- The list "servers", each entry from the app that the entries before it leave.
unfoldable pub servers_view :
    SnapshotReadings → Dict String HealthInfo → List ServerMetrics → App → Option (List ServerView)
unfolding server_view
servers_view r heartbeat [] a = some []
servers_view r heartbeat (metric ∷ metrics) a =
    let rest = servers_view r heartbeat metrics (read_server r metric.server_id a).1 in
    elim (server_view r heartbeat metric a) [
      | none ↦ none
      | some view ↦ elim rest [ none ↦ none | some views ↦ some (view ∷ views) ]
    ]

-- `rps` is in hundredths, the rates are in tenths of a percent, the averages in hundredths.
pub record Observability : Type 0 where
  pub rps : ℕ
  pub success_rate : ℕ
  pub failure_rate : ℕ
  pub active_servers : List String
  pub avg_cpu : ℕ
  pub total_connections : ℕ
  pub avg_response_time : ℕ

-- `round((count / max(1, success_count + failure_count)) * 100, 1)`
unfoldable pub rate_of : (count : ℕ) → App → ℕ
unfolding round
rate_of count a = round (1000 * count) (max 1 (a.success_count + a.failure_count))

unfoldable pub observability : List ServerMetrics → App → Observability
unfolding rate_of
observability metrics a =
    let summary = Summary.summary a.metrics_collector in
    record {
      rps = 10 * length a.request_timestamps;
      success_rate = rate_of a.success_count a;
      failure_rate = rate_of a.failure_count a;
      active_servers = map (λ m. m.server_id) (filter is_online metrics);
      avg_cpu = summary.average_cpu;
      total_connections = summary.total_connections;
      avg_response_time = summary.average_response_time;
    }

-- `max((seat.version for seat in seats), default=0)`
unfoldable pub max_version : List SeatState → ℕ
max_version [] = 0
max_version (seat ∷ seats) = max seat.version (max_version seats)

unfoldable pub versions : Dict String StateReplicator → List (String × ℕ)
unfolding max_version
versions [] = []
versions ((sid, replicator) ∷ replicators) =
    (sid, max_version (list_seats replicator.local_store)) ∷ versions replicators

pub record SyncView : Type 0 where
  pub pending : ℕ
  pub versions : List (String × ℕ)
  pub cluster_members : List String

unfoldable pub sync_view : (sorted : List String → List String) → App → SyncView
unfolding versions
sync_view sorted a = record {
  pending = get_pending_count a.consistency_simulator;
  versions = versions a.replicators;
  cluster_members = get_cluster_members sorted a.recovery_manager;
}

-- The two rates that are shown add up to 100 percent exactly once anything has been counted, though
-- each is rounded; before that both are 0.
pub observability-rates :
    (metrics : List ServerMetrics) (a : App)
    → ((observability metrics a).success_rate + (observability metrics a).failure_rate ≡ 1000)
      ⊎ ((a.success_count + a.failure_count ≡ 0)
          × ((observability metrics a).success_rate ≡ 0)
          × ((observability metrics a).failure_rate ≡ 0))
unfolding observability rate_of round
observability-rates metrics a = by_total (a.success_count + a.failure_count) refl
  where
    by_total :
        (t : ℕ)
        → a.success_count + a.failure_count ≡ t
        → (round (1000 * a.success_count) (max 1 (a.success_count + a.failure_count))
              + round (1000 * a.failure_count) (max 1 (a.success_count + a.failure_count))
            ≡ 1000)
          ⊎ ((a.success_count + a.failure_count ≡ 0)
              × (round (1000 * a.success_count) (max 1 (a.success_count + a.failure_count)) ≡ 0)
              × (round (1000 * a.failure_count) (max 1 (a.success_count + a.failure_count)) ≡ 0))
    by_total zero e =
        let no_success : a.success_count ≡ 0 = omega (arith, e) in
        let no_failure : a.failure_count ≡ 0 = omega (arith, e) in
        inr (rw (no_success, no_failure) (refl, refl, refl))
    by_total (suc t) e =
        let both : 1000 * a.success_count + 1000 * a.failure_count ≡ suc t * (2 * 500) =
          omega (arith, e) in
        let same : max 1 (a.success_count + a.failure_count) ≡ suc t = ground (arith, e) in
        inl (
          rw same (
            round-sum (1000 * a.success_count) (1000 * a.failure_count) (suc t) 500 (omega arith)
              both))
