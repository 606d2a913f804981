-- ===== src/Balancer/Contract/Weights.antt =====
-- load_balancer/weighted_round_robin.py keeps the contract of a strategy, while no weight is zero
-- or negative.
use distributed_tickit_syste.Common.{ℕ, ◌+◌, ◌≤◌, ◌≡◌, refl, String, some, List, [], ◌∷◌, arith}
use distributed_tickit_syste.Common.Int.{ℤ}
use distributed_tickit_syste.Common.Dict.{Dict}
use distributed_tickit_syste.Balancer.Metrics.{
  ServerMetrics, online_servers, IsCandidate-of_online, online_of_candidate,
}
use distributed_tickit_syste.Balancer.Contract.{Contract}
use mathlib.Core.List.{Memᴰ}
use distributed_tickit_syste.Balancer.Extremum.{best_from, best_from-mem}
use distributed_tickit_syste.Balancer.WeightedRoundRobin.{
  WeightedRoundRobinStrategy, weight_for, ensured, prepare, raise_all, heavier, choose, among,
  select_server,
}

-- Every server counts.
abbrev pub IsPositive : WeightedRoundRobinStrategy → Type 0
IsPositive s = (sid : String) → 1 ≤ weight_for s sid

total_grows :
    (s : WeightedRoundRobinStrategy) (ms : List ServerMetrics) (current : Dict String ℤ) (total : ℕ)
    → total ≤ (prepare s ms current total).1
unfolding prepare
total_grows s [] current total = omega arith
total_grows s (m ∷ ms) current total =
    let rest = total_grows s ms (ensured m.server_id current) (total + weight_for s m.server_id) in
    omega (arith, rest)

total_positive :
    (s : WeightedRoundRobinStrategy) (m : ServerMetrics) (ms : List ServerMetrics)
    → IsPositive s
    → 1 ≤ (prepare s (m ∷ ms) s.current 0).1
unfolding prepare
total_positive s m ms v =
    let rest = total_grows s ms (ensured m.server_id s.current) (0 + weight_for s m.server_id) in
    let first = v m.server_id in omega (arith, rest, first)

choose-selects :
    (s : WeightedRoundRobinStrategy) (m : ServerMetrics) (ms : List ServerMetrics)
    (prepared : Dict String ℤ × ℕ)
    → 1 ≤ prepared.1
    → (choose s m ms prepared).0
      ≡ some (best_from (heavier (raise_all s (m ∷ ms) prepared.0)) m ms).server_id
unfolding choose
choose-selects s m ms prepared h = ground arith

choose-weights :
    (s : WeightedRoundRobinStrategy) (m : ServerMetrics) (ms : List ServerMetrics)
    (prepared : Dict String ℤ × ℕ)
    → (choose s m ms prepared).1.weights ≡ s.weights
unfolding choose
choose-weights s m ms prepared = ground arith

among-weights :
    (s : WeightedRoundRobinStrategy) (ms : List ServerMetrics) → (among s ms).1.weights ≡ s.weights
among-weights s [] = refl
among-weights s (m ∷ ms) = choose-weights s m ms (prepare s (m ∷ ms) s.current 0)

among-selects :
    (s : WeightedRoundRobinStrategy) (ms : List ServerMetrics) {n : ServerMetrics}
    → IsPositive s
    → Memᴰ n ms
    → (m : ServerMetrics) × ((among s ms).0 ≡ some m.server_id) × Memᴰ m ms
among-selects s [] v h = elim h [ ]
among-selects s (x ∷ ms) v h =
    let prepared = prepare s (x ∷ ms) s.current 0 in
    let raised = raise_all s (x ∷ ms) prepared.0 in
    (
      best_from (heavier raised) x ms,
      choose-selects s x ms prepared (total_positive s x ms v),
      best_from-mem (heavier raised) x ms,
    )

pub WeightedRoundRobin-Contract : Contract IsPositive (λ metrics key s. select_server metrics s)
unfolding select_server weight_for
WeightedRoundRobin-Contract = record {
  keeps = λ metrics key s v sid. rw (weight_for, among-weights s (online_servers metrics)) (v sid);
  selects = λ metrics key s n v h.
      let (m, chosen, at) =
        among-selects s (online_servers metrics) v (online_of_candidate metrics h.0 h.1) in
      (m, chosen, IsCandidate-of_online metrics at);
  idle = λ metrics key s e. rw e refl;
}
