-- ===== src/Telemetry/Summary.antt =====
-- telemetry/metrics_collector.py: the summary. An average is rounded from the exact fraction: `mean`
-- is Python's, and the binary fractions of its floats are not modelled.
use distributed_tickit_syste.Common.{
  ℕ, ◌+◌, ◌*◌, ◌≤◌, ◌<◌, ◌≡◌, ap, ◌∙◌, List, [], ◌∷◌, All, length, arith, string_key,
}
use native.Mathlib.Nat.{mul_assoc, mul_comm, mul-zero, mul-suc}
use distributed_tickit_syste.Common.Dict.{values}
use distributed_tickit_syste.Common.Rounding.{round, round-bounds}
use distributed_tickit_syste.Balancer.Metrics.{ServerMetrics}
use distributed_tickit_syste.Telemetry.{MetricsCollector}

-- `average_cpu` and `average_response_time` are in hundredths, `average_error_rate` is in
-- ten-thousandths.
pub record TelemetrySummary : Type 0 where
  pub average_cpu : ℕ
  pub total_connections : ℕ
  pub average_response_time : ℕ
  pub average_error_rate : ℕ
  pub total_request_count : ℕ
  pub server_count : ℕ

unfoldable pub total : (ServerMetrics → ℕ) → List ServerMetrics → ℕ
total f [] = 0
total f (m ∷ ms) = f m + total f ms

abbrev pub no_servers : TelemetrySummary
no_servers = record {
  average_cpu = 0;
  total_connections = 0;
  average_response_time = 0;
  average_error_rate = 0;
  total_request_count = 0;
  server_count = 0;
}

unfoldable pub summary_of : List ServerMetrics → TelemetrySummary
unfolding total round
summary_of [] = no_servers
summary_of (m ∷ ms) =
    let count = length (m ∷ ms) in
    record {
      average_cpu = round (total (λ v. v.cpu_usage) (m ∷ ms)) (count * 10);
      total_connections = total (λ v. v.active_connections) (m ∷ ms);
      average_response_time = round (total (λ v. v.response_time) (m ∷ ms)) (count * 10);
      average_error_rate = round (total (λ v. 10 * v.error_rate) (m ∷ ms)) count;
      total_request_count = total (λ v. v.request_count) (m ∷ ms);
      server_count = count;
    }

unfoldable pub summary : MetricsCollector → TelemetrySummary
unfolding summary_of
summary c = summary_of (values c.metrics)

-- Levels in the units of the summary: whole hundredths of a percent and of a millisecond, and whole
-- ten-thousandths of an error rate.
pub record Levels : Type 0 where
  pub cpu : ℕ
  pub response_time : ℕ
  pub error_rate : ℕ

-- The metrics of a server are between the levels.
abbrev pub IsBetween : (low high : Levels) → ServerMetrics → Type 0
IsBetween low high m =
    ((low.cpu * 10 ≤ m.cpu_usage) × (m.cpu_usage ≤ high.cpu * 10))
    × ((low.response_time * 10 ≤ m.response_time) × (m.response_time ≤ high.response_time * 10))
    × ((low.error_rate ≤ 10 * m.error_rate) × (10 * m.error_rate ≤ high.error_rate))

abbrev pub Averages : (low high : Levels) → TelemetrySummary → Type 0
Averages low high s =
    ((low.cpu ≤ s.average_cpu) × (s.average_cpu ≤ high.cpu))
    × ((low.response_time ≤ s.average_response_time)
        × (s.average_response_time ≤ high.response_time))
    × ((low.error_rate ≤ s.average_error_rate) × (s.average_error_rate ≤ high.error_rate))

total-bounds :
    (f : ServerMetrics → ℕ) (ms : List ServerMetrics) (low high : ℕ)
    → All (λ m. (low ≤ f m) × (f m ≤ high)) ms
    → (low * length ms ≤ total f ms) × (total f ms ≤ high * length ms)
unfolding total
total-bounds f [] low high h =
    let low_zero = mul-zero low in
    let high_zero = mul-zero high in
    (omega (arith, low_zero, high_zero), omega (arith, low_zero, high_zero))
total-bounds f (m ∷ ms) low high h =
    let (above, below) = total-bounds f ms low high h.1 in
    let low_more = mul-suc low (length ms) in
    let high_more = mul-suc high (length ms) in
    let own = h.0 in (omega (arith, above, low_more, own.0), omega (arith, below, high_more, own.1))

All-weaken :
    (P Q : ServerMetrics → Type 0) (ms : List ServerMetrics)
    → ((m : ServerMetrics) → P m → Q m)
    → All P ms
    → All Q ms
All-weaken P Q [] f h = tt
All-weaken P Q (m ∷ ms) f h = (f m h.0, All-weaken P Q ms f h.1)

scaled : (k n : ℕ) → k * 10 * n ≡ k * (n * 10)
scaled k n = mul_assoc k 10 n ∙ ap (λ (j : ℕ). k * j) (mul_comm 10 n)

-- A rounded average of numbers that are given in tenths of its unit.
average-bounds :
    (f : ServerMetrics → ℕ) (ms : List ServerMetrics) (low high : ℕ)
    → 0 < length ms
    → All (λ m. (low * 10 ≤ f m) × (f m ≤ high * 10)) ms
    → (low ≤ round (total f ms) (length ms * 10)) × (round (total f ms) (length ms * 10) ≤ high)
average-bounds f ms low high some_server h =
    let (above, below) = total-bounds f ms (low * 10) (high * 10) h in
    round-bounds (total f ms) (length ms * 10) low high (omega (arith, some_server))
      (rw (← scaled low (length ms)) above) (rw (← scaled high (length ms)) below)

-- As long as a server has been ingested, every average of the summary, rounded as it is, lies between
-- any two levels that the metrics of all servers lie between and that are whole numbers of the unit
-- of that average: hundredths of a percent or of a millisecond, ten-thousandths of an error rate.
pub summary-Averages :
    (c : MetricsCollector) (low high : Levels)
    → 0 < length (values c.metrics)
    → All (IsBetween low high) (values c.metrics)
    → Averages low high (summary c)
unfolding summary summary_of
summary-Averages c low high some_server h = by_values (values c.metrics) some_server h
  where
    by_values :
        (ms : List ServerMetrics)
        → 0 < length ms
        → All (IsBetween low high) ms
        → Averages low high (summary_of ms)
    by_values [] none_there h' = absurd (omega (arith, none_there))
    by_values (m ∷ ms) there h' =
        let error =
          total-bounds (λ v. 10 * v.error_rate) (m ∷ ms) low.error_rate high.error_rate
            (All-weaken (IsBetween low high) _ (m ∷ ms) (λ v b. b.2) h') in
        (
          average-bounds (λ v. v.cpu_usage) (m ∷ ms) low.cpu high.cpu there
              (All-weaken (IsBetween low high) _ (m ∷ ms) (λ v b. b.0) h'),
          average-bounds (λ v. v.response_time) (m ∷ ms) low.response_time high.response_time there
              (All-weaken (IsBetween low high) _ (m ∷ ms) (λ v b. b.1) h'),
          round-bounds (total (λ v. 10 * v.error_rate) (m ∷ ms)) (length (m ∷ ms)) low.error_rate
              high.error_rate there error.0 error.1,
        )
