-- ===== src/Booking/Snapshot.antt =====
-- dashboard.py: `snapshot`, for what it changes. The view of the state that it returns is in
-- Booking/View, and the readings of the clock that only the view shows are left out here.
use distributed_tickit_syste.Common.{
  ℕ, ◌-◌, String, List, [], ◌∷◌, filter, leb, min, max, if◌then◌else◌, string_key,
}
use distributed_tickit_syste.Common.Int.{ℤ, pos, negsuc, ◌+ℤ◌}
use distributed_tickit_syste.Common.Dict.{Dict}
use distributed_tickit_syste.Circuit.Breaker
use distributed_tickit_syste.Balancer.Metrics.{ServerMetrics}
use distributed_tickit_syste.Monitoring.Heartbeat.{refresh_server_health}
use distributed_tickit_syste.Failover.Manager
use distributed_tickit_syste.Booking.Desk.{expire_leases_locked}
use distributed_tickit_syste.Booking.App.{
  Server, Action, done, pure, ◌>>=◌, ◌>>◌, breaker_of, put_breaker, MetricReadings, current_metrics,
}

-- What `random.randint` draws for a server.
pub record Draws : Type 0 where
  pub cpu : ℤ
  pub connections : ℤ
  pub response_time : ℤ

-- `max(low, min(high, n))`
unfoldable pub clamp : (low high : ℕ) → ℤ → ℕ
clamp low high (pos n) = max low (min high n)
clamp low high (negsuc n) = low

unfoldable pub refresh_server : Draws → Server → Server
unfolding clamp
refresh_server draws server =
    if server.online
    then record server {
      cpu = clamp 5 95 (pos server.cpu +ℤ draws.cpu);
      connections = clamp 0 30 (pos server.connections +ℤ draws.connections);
      response_time = clamp 25 700 (pos server.response_time +ℤ draws.response_time);
    }
    else server

-- The loop of `_refresh_server_metrics`.
unfoldable pub refresh_server_metrics : (String → Draws) → Dict String Server → Dict String Server
unfolding refresh_server
refresh_server_metrics draws [] = []
refresh_server_metrics draws ((sid, server) ∷ servers) =
    (sid, refresh_server (draws sid) server) ∷ refresh_server_metrics draws servers

-- The draws, and the readings of the clock.
pub record SnapshotReadings : Type 0 where
  pub expired_at : ℕ
  pub draws : String → Draws
  pub metrics : MetricReadings
  pub now : ℕ
  pub health_at : ℕ
  pub state_at : String → ℕ
  pub rate_at : String → ℕ

abbrev pub begin_snapshot : SnapshotReadings → Action (Unit {0})
begin_snapshot r a = (
  done tt,
  record a {
    desk = expire_leases_locked r.expired_at a.desk;
    servers = refresh_server_metrics r.draws a.servers;
  },
)

-- The requests of the last ten seconds, and the status of the servers by their heartbeats.
abbrev pub tidy : SnapshotReadings → Action (Unit {0})
tidy r a = (
  done tt,
  record a {
    request_timestamps = filter (λ timestamp. leb (r.now - timestamp) 10000) a.request_timestamps;
    heartbeat_monitor = refresh_server_health r.health_at a.heartbeat_monitor;
  },
)

-- The reads of the breaker and the failover state of one server.
abbrev pub breaker_read : SnapshotReadings → String → Breaker.Breaker → Action (Unit {0})
breaker_read r sid b a =
    let read = (Breaker.get_state (r.state_at sid) b).1 in
    (
      done tt,
      put_breaker sid (Breaker.failure_percentage (r.rate_at sid) read).1
          (record a { failover_manager = (Manager.get_state sid a.failover_manager).1 }),
    )

abbrev pub read_server : SnapshotReadings → String → Action (Unit {0})
read_server r sid = breaker_of sid >>= λ b. breaker_read r sid b

unfoldable pub read_servers : SnapshotReadings → List ServerMetrics → Action (Unit {0})
read_servers r [] = pure tt
read_servers r (metric ∷ metrics) = do read_server r metric.server_id; read_servers r metrics

-- What follows the expiry and the new metrics of the servers.
abbrev pub rest_of_snapshot : SnapshotReadings → Action (Unit {0})
rest_of_snapshot r = do metrics ← current_metrics r.metrics; tidy r; read_servers r metrics

unfoldable pub snapshot : SnapshotReadings → Action (Unit {0})
unfolding refresh_server_metrics read_servers
snapshot r = do begin_snapshot r; rest_of_snapshot r
