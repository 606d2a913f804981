-- ===== src/Balancer/WeightedRoundRobin.antt =====
-- load_balancer/weighted_round_robin.py. Current weights may be negative.
pub mod Conservation
use distributed_tickit_syste.Common.{
  ℕ, ◌+◌, String, Bool, true, false, Option, none, some, List, [], ◌∷◌, if◌then◌else◌, ◌==◌, Key,
  string_key,
}
use distributed_tickit_syste.Common.Int.{ℤ, pos, negsuc, pos_part, ◌+ℤ◌, ◌-ℤ◌, ltb_ℤ}
use distributed_tickit_syste.Common.Dict.{Dict, lookup, insert}
use distributed_tickit_syste.Balancer.Metrics.{ServerMetrics, online_servers}
use distributed_tickit_syste.Balancer.Extremum.{best_from}

pub record WeightedRoundRobinStrategy : Type 0 where
  pub weights : Dict String ℤ
  pub current : Dict String ℤ

unfoldable pub init : Dict String ℤ → WeightedRoundRobinStrategy
init weights = record { weights = weights; current = [] }

-- 1 for a server without a weight, 0 for a negative weight.
unfoldable pub weight_for : WeightedRoundRobinStrategy → String → ℕ
weight_for s server_id = elim (lookup server_id s.weights) [ none ↦ 1 | some w ↦ pos_part w ]

-- `current.get(server_id, 0)`
abbrev pub current_of : Dict String ℤ → String → ℤ
current_of current sid = elim (lookup sid current) [ none ↦ pos 0 | some c ↦ c ]

-- `if sid not in current: current[sid] = 0`
abbrev pub ensured : String → Dict String ℤ → Dict String ℤ
ensured sid current = elim (lookup sid current) [
  | none ↦ insert sid (pos 0) current
  | some _ ↦ current
]

-- The first loop: every server has an entry, and the weights are added up.
unfoldable pub prepare :
    WeightedRoundRobinStrategy → List ServerMetrics → Dict String ℤ → ℕ → Dict String ℤ × ℕ
prepare s [] current total = (current, total)
prepare s (m ∷ ms) current total =
    prepare s ms (ensured m.server_id current) (total + weight_for s m.server_id)

-- `current[sid] += amount`, for an entry that is there.
abbrev pub added : String → ℤ → Dict String ℤ → Dict String ℤ
added sid amount current = elim (lookup sid current) [
  | none ↦ current
  | some c ↦ insert sid (c +ℤ amount) current
]

-- The second loop.
unfoldable pub raise_all :
    WeightedRoundRobinStrategy → List ServerMetrics → Dict String ℤ → Dict String ℤ
raise_all s [] current = current
raise_all s (m ∷ ms) current =
    raise_all s ms (added m.server_id (pos (weight_for s m.server_id)) current)

-- `max(online, key=...)`: the first with the greatest current weight.
abbrev pub heavier : Dict String ℤ → ServerMetrics → ServerMetrics → Bool
heavier current m n = ltb_ℤ (current_of current n.server_id) (current_of current m.server_id)

-- `current[chosen_id] -= total_weight`, for an entry that is there.
abbrev pub lowered : String → ℕ → Dict String ℤ → Dict String ℤ
lowered sid total current = elim (lookup sid current) [
  | none ↦ current
  | some c ↦ insert sid (c -ℤ pos total) current
]

-- The rest of `select_server` after the first loop, for the servers online.
unfoldable pub choose :
    WeightedRoundRobinStrategy
    → ServerMetrics
    → List ServerMetrics
    → Dict String ℤ × ℕ
    → Option String × WeightedRoundRobinStrategy
choose s m ms (current, total) =
    let raised = raise_all s (m ∷ ms) current in
    let chosen = best_from (heavier raised) m ms in
    if total == 0
    then (none, record s { current = current })
    else (some chosen.server_id, record s { current = lowered chosen.server_id total raised })

abbrev pub among :
    WeightedRoundRobinStrategy → List ServerMetrics → Option String × WeightedRoundRobinStrategy
among s [] = (none, s)
among s (m ∷ ms) = choose s m ms (prepare s (m ∷ ms) s.current 0)

unfoldable pub select_server :
    List ServerMetrics → WeightedRoundRobinStrategy → Option String × WeightedRoundRobinStrategy
unfolding prepare choose raise_all weight_for
select_server metrics s = among s (online_servers metrics)
