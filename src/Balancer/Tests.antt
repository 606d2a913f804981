-- ===== src/Balancer/Tests.antt =====
-- Runs of the load balancing strategies at concrete inputs.
mod Client
use distributed_tickit_syste.Common.{
  ℕ, ◌≤◌, ◌<◌, ◌≢◌, ◌≡◌, String, true, refl, ap, some, List, [], ◌∷◌, arith, ite, string_same,
  filter, get_elem?, zero, suc,
}
use distributed_tickit_syste.Common.Decimal.{str}
use distributed_tickit_syste.Common.Int.{pos, negsuc, ◌≤ℤ◌}
use distributed_tickit_syste.Balancer.Metrics.{
  ServerMetrics, Status, online, offline, IsCandidate, is_online,
}
use distributed_tickit_syste.Balancer.RoundRobin
use distributed_tickit_syste.Balancer.RoundRobin.{
  RoundRobinStrategy, at_offset, IsDown, next_index, select_server-first, select_server-none,
  select_times, rotation,
}
use distributed_tickit_syste.Balancer.LeastConnections
use distributed_tickit_syste.Balancer.LeastConnections.{compute_score, default, select_server-least}
use distributed_tickit_syste.Balancer.AdaptiveFeedback
use distributed_tickit_syste.Balancer.AdaptiveFeedback.{health_score, select_server-healthiest}
use distributed_tickit_syste.Balancer.ConsistentHashing
use distributed_tickit_syste.Balancer.ConsistentHashing.{ConsistentHashingStrategy}
use distributed_tickit_syste.Balancer.ConsistentHashing.Remapping.{remains, minimal_remapping}
use distributed_tickit_syste.Balancer.WeightedRoundRobin
use distributed_tickit_syste.Balancer.WeightedRoundRobin.{WeightedRoundRobinStrategy}
use distributed_tickit_syste.Balancer.WeightedRoundRobin.Conservation.{sum, sum-select_server}
use mathlib.Core.List.{Memᴰ}

abbrev server : String → ℕ → Status → ServerMetrics
server server_id connections status = record {
  server_id = server_id;
  cpu_usage = 40000;
  active_connections = connections;
  response_time = 50000;
  error_rate = 0;
  request_count = 0;
  status = status;
}

abbrev one_down : List ServerMetrics
one_down = server "A" 5 offline ∷ server "B" 7 online ∷ server "C" 3 online ∷ []

abbrev all_up : List ServerMetrics
all_up = server "A" 5 online ∷ server "B" 7 online ∷ []

-- The next round starts with the first server.
abbrev at_end : RoundRobinStrategy
at_end = record { rr_index = some 2 }

first_is_out : (i : ℕ) → i < 1 → IsDown (at_offset (next_index at_end) i one_down)
first_is_out zero h = refl
first_is_out (suc i) h = absurd (omega arith)

select_server-first_example :
    RoundRobin.select_server one_down at_end ≡ (some "B", record { rr_index = some 1 })
select_server-first_example =
    select_server-first one_down at_end 1 (server "B" 7 online) (omega arith) first_is_out refl refl

every_one_up : (i : ℕ) (m : ServerMetrics) → get_elem? all_up i ≡ some m → is_online m ≡ true
every_one_up zero m h = cc
every_one_up (suc zero) m h = cc
every_one_up (suc (suc i)) m h = absurd (cc)

select_server-least_example :
    (m : ServerMetrics) × (LeastConnections.select_server default one_down ≡ some m.server_id)
    × IsCandidate m one_down
    × (compute_score default m ≤ compute_score default (server "B" 7 online))
select_server-least_example =
    select_server-least default one_down (server "B" 7 online) (Memᴰ.tail (Memᴰ.head refl), refl)

-- The virtual nodes of A, B and C stand at 10, 20 and 30, the key at 15.
abbrev some_hash : String → ℕ
some_hash k =
    ite (string_same k "A-vn-0") 10
      (ite (string_same k "B-vn-0") 20 (ite (string_same k "C-vn-0") 30 15))

abbrev one_vnode : ConsistentHashingStrategy
one_vnode = ConsistentHashing.init 1

as_number : String → ℕ
as_number x = ite (string_same x "B") 1 0

b_is_not_a : ◌≢◌ {A = String} "B" "A"
unfolding as_number string_same
b_is_not_a e = let apart : 1 ≡ 0 = ap as_number e in absurd (omega (arith, apart))

minimal_remapping_example :
    (ConsistentHashing.select_server some_hash
      (filter (remains "A") all_up)
      (some "seat-1")
      one_vnode).0
    ≡ some "B"
unfolding ConsistentHashing.select_server ConsistentHashing.build_ring ConsistentHashing.vnodes
    ConsistentHashing.vnodes_from ConsistentHashing.sort ConsistentHashing.insert_by_hash
    ConsistentHashing.vnode_key ConsistentHashing.locate ConsistentHashing.bisect_left
    ConsistentHashing.init string_same str
minimal_remapping_example =
    minimal_remapping "A" some_hash all_up (some "seat-1") one_vnode "B" refl b_is_not_a

abbrev weighted : WeightedRoundRobinStrategy
weighted = record { weights = ("A", pos 5) ∷ []; current = ("A", negsuc 0) ∷ ("B", pos 1) ∷ [] }

sum-select_server_example :
    sum (WeightedRoundRobin.select_server all_up weighted).1.current ≡ sum weighted.current
sum-select_server_example = sum-select_server weighted all_up
