-- ===== src/Booking/App.antt =====
-- dashboard.py: the state of DistributedTicketWebApp, and the steps of a booking. What is only shown
-- (the log, `last_route`, `retry_status`, the latency) is not modelled, nor are the telemetry events.
-- `state_stores[s]` is the object that `replicators[s]` holds as its `local_store`. A method that
-- raises leaves what it has changed.
use distributed_tickit_syste.Common.{
  ℕ, ◌*◌, String, Bool, true, false, not, Option, none, some, List, [], ◌∷◌, if◌then◌else◌, nat_key,
  string_key,
}
use distributed_tickit_syste.Common.Rounding.{round}
use distributed_tickit_syste.Common.Dict.{Dict, lookup, insert}
use distributed_tickit_syste.Locking.{LeaseError}
use distributed_tickit_syste.Circuit.StateMachine.{CircuitState, opened}
use distributed_tickit_syste.Circuit.FailureTracker.{Percentage}
use distributed_tickit_syste.Circuit.Breaker
use distributed_tickit_syste.Circuit.Breaker.{Breaker, Readings}
use distributed_tickit_syste.Balancer.Metrics.{ServerMetrics, online, offline}
use distributed_tickit_syste.Monitoring.Heartbeat.{HeartbeatMonitor, record_heartbeat}
use distributed_tickit_syste.Failover.Manager.{FailoverManager}
use distributed_tickit_syste.Failover.Recovery.{RecoveryManager}
use distributed_tickit_syste.Telemetry.{MetricsCollector, ingest_batch}
use distributed_tickit_syste.Sync.Replicator.{StateReplicator}
use distributed_tickit_syste.Sync.Simulator.{EventualConsistencySimulator}
use distributed_tickit_syste.Booking.Desk.{Desk}
use distributed_tickit_syste.Booking.Routing.{ActiveStrategy}

pub record Server : Type 0 where
  pub online : Bool
  pub cpu : ℕ
  pub connections : ℕ
  pub response_time : ℕ
  pub requests : ℕ

pub record App : Type 0 where
  pub desk : Desk
  pub servers : Dict String Server
  pub breakers : Dict String Breaker
  pub heartbeat_monitor : HeartbeatMonitor
  pub failover_manager : FailoverManager
  pub recovery_manager : RecoveryManager
  pub metrics_collector : MetricsCollector
  pub strategy : ActiveStrategy
  pub replicators : Dict String StateReplicator
  pub consistency_simulator : EventualConsistencySimulator
  pub request_timestamps : List ℕ
  pub success_count : ℕ
  pub failure_count : ℕ

-- Why a booking fails.
pub data Reason : Type 0 where
  no_seat already_reserved currently_leased : ℕ → Reason
  no_server : Reason
  circuit_is_open server_offline simulated_failure key_missing : String → Reason
  lease_refused : LeaseError → Reason

-- `TransientBookingError`, `NonRetryableBookingError`, `LeaseConflictError` and `KeyError`.
pub data BookingError : Type 0 where
  transient not_retryable : Reason → BookingError
  lease_conflict : LeaseError → BookingError
  key_error : String → BookingError

pub data Reply (A : Type 0) : Type 0 where
  done : A → Reply A
  fails : BookingError → Reply A

abbrev pub Action : Type 0 → Type 0
Action A = App → Reply A × App

abbrev pub pure : {A : Type 0} → A → Action A
pure x a = (done x, a)

abbrev pub fail : {A : Type 0} → BookingError → Action A
fail e a = (fails e, a)

infixl 5 ◌>>=◌ ◌>>◌
abbrev pub ◌>>=◌ : {A B : Type 0} → Action A → (A → Action B) → Action B
◌>>=◌ m f a = let (r, a') = m a in elim r [ done x ↦ f x a' | fails e ↦ (fails e, a') ]

abbrev pub ◌>>◌ : {A B : Type 0} → Action A → Action B → Action B
m >> k = m >>= λ _. k

abbrev pub or_key_error : {V : Type 0} → String → Option V → Action V
or_key_error key none = fail (key_error key)
or_key_error key (some x) = pure x

-- `self.breakers[server_id]`
abbrev pub breaker_of : String → Action Breaker
breaker_of server_id a = or_key_error server_id (lookup server_id a.breakers) a

abbrev pub put_breaker : String → Breaker → App → App
put_breaker server_id b a = record a { breakers = insert server_id b a.breakers }

-- The readings of the clock for the metrics of each server.
pub record MetricReadings : Type 0 where
  pub beat_at : String → ℕ
  pub state_at : String → ℕ
  pub rate_at : String → ℕ

-- `round(failure_percentage() / 100, 3)` in thousandths.
unfoldable pub error_rate : Percentage → ℕ
unfolding round
error_rate p = round (10 * p.numerator) p.denominator

abbrev pub is_open : CircuitState → Bool
is_open s = elim s [ opened ↦ true | _ ↦ false ]

-- `server["online"] and breaker.get_state() != OPEN`: the breaker of a server that is off is not asked.
abbrev pub read_online : MetricReadings → String → Server → Breaker → Bool × Breaker
read_online r sid server b =
    let (state, b') = Breaker.get_state (r.state_at sid) b in
    if server.online then (not (is_open state), b') else (false, b)

-- The metrics of a server, and its breaker after the calls that they make.
abbrev pub read_breaker : MetricReadings → String → Server → Breaker → ServerMetrics × Breaker
read_breaker r sid server b =
    let (is_up, b') = read_online r sid server b in
    let (rate, b'') = Breaker.failure_percentage (r.rate_at sid) b' in
    (
      record {
        server_id = sid;
        cpu_usage = 1000 * server.cpu;
        active_connections = server.connections;
        response_time = 1000 * server.response_time;
        error_rate = error_rate rate;
        request_count = server.requests;
        status = if is_up then online else offline;
      },
      b'',
    )

abbrev pub beat : MetricReadings → String → Server → App → App
beat r sid server a =
    if server.online
    then record a {
      heartbeat_monitor = (record_heartbeat sid (r.beat_at sid) a.heartbeat_monitor).1;
    }
    else a

-- One server in the loop of `_current_metrics`.
unfoldable pub metric_of : MetricReadings → String → Server → Action ServerMetrics
metric_of r sid server a = elim (lookup sid a.breakers) [
  | none ↦ (fails (key_error sid), beat r sid server a)
  | some b ↦
      let (metric, b') = read_breaker r sid server b in
      (done metric, put_breaker sid b' (beat r sid server a))
]

unfoldable pub metrics_of : MetricReadings → Dict String Server → Action (List ServerMetrics)
unfolding metric_of
metrics_of r [] = pure []
metrics_of r ((sid, server) ∷ servers) = do
  metric ← metric_of r sid server
  metrics ← metrics_of r servers
  pure (metric ∷ metrics)

abbrev pub ingested : List ServerMetrics → Action (List ServerMetrics)
ingested metrics a =
    (done metrics, record a { metrics_collector = ingest_batch metrics a.metrics_collector })

unfoldable pub current_metrics : MetricReadings → Action (List ServerMetrics)
unfolding metrics_of
current_metrics r a = (metrics_of r a.servers >>= ingested) a
