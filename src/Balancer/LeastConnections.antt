-- ===== src/Balancer/LeastConnections.antt =====
-- load_balancer/resource_aware_least_connections.py. Weights are whole thousandths, as the metrics
-- are, so a score is a whole number of millionths.
use distributed_tickit_syste.Common.{
  ℕ, ◌+◌, ◌*◌, ◌≤◌, String, ◌≡◌, refl, Bool, Option, none, some, List, [], ◌∷◌, arith, ltb,
}
use distributed_tickit_syste.Balancer.Metrics.{
  ServerMetrics, online_servers, IsCandidate, IsCandidate-of_online, online_of_candidate,
}
use distributed_tickit_syste.Balancer.Extremum.{best_from, best_from-mem, best_from-unbeaten}
use mathlib.Core.List.{Memᴰ}

pub record ResourceAwareLeastConnectionsStrategy : Type 0 where
  pub w_conn : ℕ
  pub w_cpu : ℕ
  pub w_resp : ℕ

-- The weights 0.5, 0.3 and 0.2 of the constructor's defaults.
abbrev pub default : ResourceAwareLeastConnectionsStrategy
default = record { w_conn = 500; w_cpu = 300; w_resp = 200 }

unfoldable pub compute_score : ResourceAwareLeastConnectionsStrategy → ServerMetrics → ℕ
compute_score s m =
    1000 * m.active_connections * s.w_conn + m.cpu_usage * s.w_cpu + m.response_time * s.w_resp

-- `min(scores, key=lambda it: it[1])`
abbrev lighter : ResourceAwareLeastConnectionsStrategy → ServerMetrics → ServerMetrics → Bool
lighter s m n = ltb (compute_score s m) (compute_score s n)

abbrev choose : ResourceAwareLeastConnectionsStrategy → List ServerMetrics → Option ServerMetrics
choose s [] = none
choose s (m ∷ ms) = some (best_from (lighter s) m ms)

abbrev id_of : Option ServerMetrics → Option String
id_of none = none
id_of (some m) = some m.server_id

unfoldable pub select_server :
    ResourceAwareLeastConnectionsStrategy → List ServerMetrics → Option String
select_server s metrics = id_of (choose s (online_servers metrics))

choose-least :
    (s : ResourceAwareLeastConnectionsStrategy) (ms : List ServerMetrics) {n : ServerMetrics}
    → Memᴰ n ms
    → (m : ServerMetrics) × (choose s ms ≡ some m)
      × Memᴰ m ms
      × (compute_score s m ≤ compute_score s n)
choose-least s [] h = elim h [ ]
choose-least s (x ∷ ms) {n} h =
    let unbeaten =
      best_from-unbeaten (lighter s) (λ a b c p q. ground arith) (λ a b p. ground arith) x ms h in
    (best_from (lighter s) x ms, refl, best_from-mem (lighter s) x ms, ground arith)

-- If any server is online, an online server is selected, and no online server has a lower score.
pub select_server-least :
    (s : ResourceAwareLeastConnectionsStrategy) (metrics : List ServerMetrics) (n : ServerMetrics)
    → IsCandidate n metrics
    → (m : ServerMetrics) × (select_server s metrics ≡ some m.server_id)
      × IsCandidate m metrics
      × (compute_score s m ≤ compute_score s n)
unfolding select_server
select_server-least s metrics n h =
    let (m, chosen, at, least) =
      choose-least s (online_servers metrics) (online_of_candidate metrics h.0 h.1) in
    (m, rw chosen refl, IsCandidate-of_online metrics at, least)
