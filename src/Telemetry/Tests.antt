-- ===== src/Telemetry/Tests.antt =====
-- The summary of two servers.
use distributed_tickit_syste.Common.{ℕ, String, List, [], ◌∷◌, arith, string_key, ◌≡◌, refl}
use distributed_tickit_syste.Common.Dict.{values}
use distributed_tickit_syste.Balancer.Metrics.{ServerMetrics, online}
use distributed_tickit_syste.Telemetry.{MetricsCollector}
use distributed_tickit_syste.Telemetry.Summary.{Levels, Averages, summary, summary-Averages}

abbrev metrics_with : String → ℕ → ServerMetrics
metrics_with server_id cpu = record {
  server_id = server_id;
  cpu_usage = cpu;
  active_connections = 3;
  response_time = 90000;
  error_rate = 40;
  request_count = 7;
  status = online;
}

abbrev collector : MetricsCollector
collector = record {
  metrics = ("A", metrics_with "A" 20005) ∷ ("B", metrics_with "B" 31000) ∷ [];
  events = [];
}

-- The average 25.5025 is rounded to the even hundredth.
rounded : (summary collector).average_cpu ≡ 2550
unfolding summary distributed_tickit_syste.Common.Dict.values
rounded = refl

abbrev low : Levels
low = record { cpu = 2000; response_time = 9000; error_rate = 400 }

abbrev high : Levels
high = record { cpu = 3100; response_time = 9000; error_rate = 400 }

summary-Averages_example : Averages low high (summary collector)
unfolding distributed_tickit_syste.Common.Dict.values
summary-Averages_example = summary-Averages collector low high (omega arith) (
  ((omega arith, omega arith), (omega arith, omega arith), (omega arith, omega arith)),
  (((omega arith, omega arith), (omega arith, omega arith), (omega arith, omega arith)), tt),
)
