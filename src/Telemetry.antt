-- ===== src/Telemetry.antt =====
-- telemetry/metrics_collector.py: the latest metrics of each server, and the events in order.
pub mod Latest
pub mod Summary
mod Tests
use distributed_tickit_syste.Common.{
  ℕ, zero, suc, ◌+◌, ◌-◌, ◌≡◌, refl, String, Bool, true, false, Option, none, some, List, [], ◌∷◌,
  ◌++◌, length, leb, ltb, if◌then◌else◌, Key, string_key,
}
use distributed_tickit_syste.Common.Int.{ℤ, pos, negsuc}
use distributed_tickit_syste.Common.Dict.{Dict, lookup, insert}
use distributed_tickit_syste.Balancer.Metrics.{ServerMetrics}

-- `latency_ms` is in hundredths, to which the source rounds it.
pub record TelemetryEvent : Type 0 where
  pub event_type : String
  pub message : String
  pub timestamp : String
  pub server_id : String
  pub latency_ms : ℕ
  pub circuit_state : String

pub record MetricsCollector : Type 0 where
  pub metrics : Dict String ServerMetrics
  pub events : List TelemetryEvent

abbrev pub init : MetricsCollector
init = record { metrics = []; events = [] }

unfoldable pub ingest : ServerMetrics → MetricsCollector → MetricsCollector
ingest metric c = record c { metrics = insert metric.server_id metric c.metrics }

unfoldable pub ingest_batch : List ServerMetrics → MetricsCollector → MetricsCollector
ingest_batch [] c = c
ingest_batch (metric ∷ metrics) c = ingest_batch metrics (ingest metric c)

unfoldable pub get_latest : String → MetricsCollector → Option ServerMetrics
get_latest server_id c = lookup server_id c.metrics

-- `timestamp` is the reading of the clock.
unfoldable pub record_event :
    (event_type message server_id : String) (latency_ms : ℕ) (circuit_state timestamp : String)
    → MetricsCollector
    → TelemetryEvent × MetricsCollector
record_event event_type message server_id latency_ms circuit_state timestamp c =
    let event : TelemetryEvent = record {
      event_type = event_type;
      message = message;
      timestamp = timestamp;
      server_id = server_id;
      latency_ms = latency_ms;
      circuit_state = circuit_state;
    } in
    (event, record c { events = c.events ++ event ∷ [] })

abbrev pub drop : ℕ → List TelemetryEvent → List TelemetryEvent
drop zero events = events
drop (suc n) [] = []
drop (suc n) (event ∷ events) = drop n events

-- `events[-limit:]`: the slice starts at `-limit` if that is not negative, and else that far before
-- the end, or at the start of a list that is shorter.
unfoldable pub last : ℤ → List TelemetryEvent → List TelemetryEvent
last (pos zero) events = events
last (pos (suc n)) events = drop (length events - suc n) events
last (negsuc n) events = drop (suc n) events

unfoldable pub list_events : Option ℤ → MetricsCollector → List TelemetryEvent
list_events none c = c.events
list_events (some limit) c = last limit c.events

unfoldable pub clear : MetricsCollector → MetricsCollector
clear c = record c { metrics = []; events = [] }
