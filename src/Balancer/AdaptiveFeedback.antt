-- ===== src/Balancer/AdaptiveFeedback.antt =====
-- load_balancer/adaptive_feedback.py. The score is a whole number of two-thousandths: the metrics
-- are thousandths and the response time has the factor one half. It may be negative.
use distributed_tickit_syste.Common.{
  ◌+◌, ◌*◌, String, ◌≡◌, refl, Bool, Option, none, some, List, [], ◌∷◌, arith,
}
use distributed_tickit_syste.Common.Int.{ℤ, sub_ℕ, ltb_ℤ, ◌≤ℤ◌}
use distributed_tickit_syste.Balancer.Metrics.{
  ServerMetrics, online_servers, IsCandidate, IsCandidate-of_online, online_of_candidate,
}
use distributed_tickit_syste.Balancer.Extremum.{best_from, best_from-mem, best_from-unbeaten}
use mathlib.Core.List.{Memᴰ}

-- `100 - cpu - 2 conn - 0.5 response - 5 error`
unfoldable pub health_score : ServerMetrics → ℤ
health_score m =
    sub_ℕ 200000
      (2 * m.cpu_usage + 4000 * m.active_connections + m.response_time + 10 * m.error_rate)

-- `max(evaluated, key=lambda item: item[1])`
abbrev healthier : ServerMetrics → ServerMetrics → Bool
healthier m n = ltb_ℤ (health_score n) (health_score m)

abbrev choose : List ServerMetrics → Option ServerMetrics
choose [] = none
choose (m ∷ ms) = some (best_from healthier m ms)

abbrev id_of : Option ServerMetrics → Option String
id_of none = none
id_of (some m) = some m.server_id

unfoldable pub select_server : List ServerMetrics → Option String
select_server metrics = id_of (choose (online_servers metrics))

choose-healthiest :
    (ms : List ServerMetrics) {n : ServerMetrics}
    → Memᴰ n ms
    → (m : ServerMetrics) × (choose ms ≡ some m) × Memᴰ m ms × (health_score n ≤ℤ health_score m)
choose-healthiest [] h = elim h [ ]
choose-healthiest (x ∷ ms) {n} h =
    let unbeaten =
      best_from-unbeaten healthier (λ a b c p q. ground arith) (λ a b p. ground arith) x ms h in
    (best_from healthier x ms, refl, best_from-mem healthier x ms, ground arith)

-- If any server is online, an online server is selected, and no online server has a higher health
-- score.
pub select_server-healthiest :
    (metrics : List ServerMetrics) (n : ServerMetrics)
    → IsCandidate n metrics
    → (m : ServerMetrics) × (select_server metrics ≡ some m.server_id)
      × IsCandidate m metrics
      × (health_score n ≤ℤ health_score m)
unfolding select_server
select_server-healthiest metrics n h =
    let (m, chosen, at, most) =
      choose-healthiest (online_servers metrics) (online_of_candidate metrics h.0 h.1) in
    (m, rw chosen refl, IsCandidate-of_online metrics at, most)
