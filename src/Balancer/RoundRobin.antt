-- ===== src/Balancer/RoundRobin.antt =====
-- load_balancer/round_robin.py
use distributed_tickit_syste.Common.{
  ℕ, zero, suc, ◌+◌, ◌%◌, ◌<◌, String, ◌≡◌, refl, sym, ap, ◌∙◌, true, false, Option, none, some,
  List, arith, length, get_elem?, get_elem?-lt, if◌then◌else◌,
}
use native.Mathlib.Nat.{mod-lt, mod-add-mod, add_assoc}
use distributed_tickit_syste.Balancer.Metrics.{ServerMetrics, is_online}

-- `none` is the index -1, of no server chosen yet.
pub record RoundRobinStrategy : Type 0 where
  pub rr_index : Option ℕ

unfoldable pub init : RoundRobinStrategy
init = record { rr_index = none }

-- `_rr_index + 1`
abbrev pub next_index : RoundRobinStrategy → ℕ
next_index s = elim s.rr_index [ none ↦ 0 | some i ↦ i + 1 ]

-- The rounds of the loop that are left, from `offset` on: the index and the server that are found.
unfoldable pub find_online :
    (rounds offset start : ℕ) → List ServerMetrics → Option (ℕ × ServerMetrics)
find_online zero offset start metrics = none
find_online (suc rounds) offset start metrics =
    let idx = (start + offset) % length metrics in
    let rest = find_online rounds (suc offset) start metrics in
    elim (get_elem? metrics idx) [
      | none ↦ rest
      | some m ↦ if is_online m then some (idx, m) else rest
    ]

unfoldable pub select_server :
    List ServerMetrics → RoundRobinStrategy → Option String × RoundRobinStrategy
unfolding find_online
select_server metrics s = elim (find_online (length metrics) 0 (next_index s) metrics) [
  | none ↦ (none, s)
  | some (idx, m) ↦ (some m.server_id, record s { rr_index = some idx })
]

-- The server at an offset from the start, in cyclic order.
abbrev pub at_offset : (start offset : ℕ) → List ServerMetrics → Option ServerMetrics
at_offset start offset metrics = get_elem? metrics ((start + offset) % length metrics)

-- The place is taken by a server that is not online.
abbrev pub IsDown : Option ServerMetrics → Type 0
IsDown none = Unit
IsDown (some m) = is_online m ≡ false

find_online-first :
    (rounds offset start j : ℕ) (metrics : List ServerMetrics) (m : ServerMetrics)
    → j < rounds
    → ((i : ℕ) → i < j → IsDown (at_offset start (offset + i) metrics))
    → at_offset start (offset + j) metrics ≡ some m
    → is_online m ≡ true
    → find_online rounds offset start metrics ≡ some ((start + (offset + j)) % length metrics, m)
unfolding find_online
find_online-first zero offset start j metrics m h down at on = absurd (omega arith)
find_online-first (suc rounds) offset start zero metrics m h down at on =
    let same : offset + 0 ≡ offset = omega arith in
    let here : at_offset start offset metrics ≡ some m = rw same at at in rw same (ground arith)
find_online-first (suc rounds) offset start (suc j) metrics m h down at on =
    let shift : (i : ℕ) → offset + suc i ≡ suc offset + i = λ i. omega arith in
    let same : offset + 0 ≡ offset = omega arith in
    let rest =
      find_online-first rounds (suc offset) start j metrics m (omega arith)
        (λ i below. rw shift at (down (suc i) (omega arith))) (rw shift at at) on in
    let first : IsDown (at_offset start offset metrics) = rw same at (down 0 (omega arith)) in
    rw (shift j) (ground (arith, rest))

find_online-none :
    (rounds offset start : ℕ) (metrics : List ServerMetrics)
    → ((i : ℕ) → i < rounds → IsDown (at_offset start (offset + i) metrics))
    → find_online rounds offset start metrics ≡ none
unfolding find_online
find_online-none zero offset start metrics down = refl
find_online-none (suc rounds) offset start metrics down =
    let same : offset + 0 ≡ offset = omega arith in
    let first : IsDown (at_offset start offset metrics) = rw same at (down 0 (omega arith)) in
    let shift : (i : ℕ) → offset + suc i ≡ suc offset + i = λ i. omega arith in
    let rest =
      find_online-none rounds (suc offset) start metrics
        (λ i below. rw shift at (down (suc i) (omega arith))) in
    ground (arith, rest)

-- The server `j` places after the one that follows the last choice is selected, and remembered, if
-- it is online and the servers on the places between are not.
pub select_server-first :
    (metrics : List ServerMetrics) (s : RoundRobinStrategy) (j : ℕ) (m : ServerMetrics)
    → j < length metrics
    → ((i : ℕ) → i < j → IsDown (at_offset (next_index s) i metrics))
    → at_offset (next_index s) j metrics ≡ some m
    → is_online m ≡ true
    → select_server metrics s
      ≡ (some m.server_id, record { rr_index = some ((next_index s + j) % length metrics) })
unfolding select_server
select_server-first metrics s j m h down at on =
    let zero_add : (i : ℕ) → 0 + i ≡ i = λ i. omega arith in
    let found =
      find_online-first (length metrics) 0 (next_index s) j metrics m h
        (λ i below. rw zero_add (down i below)) (rw zero_add at) on in
    rw (found, select_server, zero_add) refl

-- With no server online nothing is selected and nothing is remembered.
pub select_server-none :
    (metrics : List ServerMetrics) (s : RoundRobinStrategy)
    → ((i : ℕ) → i < length metrics → IsDown (at_offset (next_index s) i metrics))
    → select_server metrics s ≡ (none, s)
unfolding select_server
select_server-none metrics s down =
    let zero_add : (i : ℕ) → 0 + i ≡ i = λ i. omega arith in
    rw
      (
        find_online-none (length metrics) 0 (next_index s) metrics
            (λ i below. rw zero_add (down i below)),
        select_server,
      )
      refl

-- `k` selections one after another, from the same metrics.
pub select_times : ℕ → List ServerMetrics → RoundRobinStrategy → RoundRobinStrategy
select_times zero metrics s = s
select_times (suc k) metrics s = select_times k metrics (select_server metrics s).1

module _ (metrics : List ServerMetrics) (some_server : 0 < length metrics)
    (all_online : (i : ℕ) (m : ServerMetrics)
      → get_elem? metrics i ≡ some m
      → is_online m ≡ true) where
  select_next :
      (s : RoundRobinStrategy)
      → (m : ServerMetrics) × (get_elem? metrics (next_index s % length metrics) ≡ some m)
        × (select_server metrics s
            ≡ (some m.server_id, record { rr_index = some (next_index s % length metrics) }))
  select_next s =
      let (m, at) = get_elem?-lt (next_index s % length metrics) metrics (mod-lt _ some_server) in
      let same : next_index s + 0 ≡ next_index s = omega arith in
      (
        m,
        at,
        rw same at (
            select_server-first metrics s 0 m some_server (λ i below. absurd (omega arith))
              (rw same at) (all_online _ m at)),
      )

  select_times-next :
      (k : ℕ) (s : RoundRobinStrategy)
      → next_index (select_times k metrics s) % length metrics ≡ (next_index s + k) % length metrics
  unfolding select_times
  select_times-next zero s = ap (λ (i : ℕ). i % length metrics) (omega arith)
  select_times-next (suc k) s =
      let (m, at, step) = select_next s in
      let moved : next_index (select_server metrics s).1 ≡ next_index s % length metrics + 1 =
        rw step refl in
      select_times-next k (select_server metrics s).1
      ∙ ap (λ (i : ℕ). (i + k) % length metrics) moved
      ∙ ap (λ (i : ℕ). i % length metrics) (add_assoc _ 1 k)
      ∙ mod-add-mod (next_index s) (length metrics) (1 + k)
      ∙ ap (λ (i : ℕ). (next_index s + i) % length metrics) (omega arith)

  -- With all servers online and the same metrics each time, the selections go round the servers in
  -- their order: the one after `k` others takes the server `k` places after the one that follows
  -- the last choice.
  pub rotation :
      (k : ℕ) (s : RoundRobinStrategy) (m : ServerMetrics)
      → get_elem? metrics ((next_index s + k) % length metrics) ≡ some m
      → (select_server metrics (select_times k metrics s)).0 ≡ some m.server_id
  rotation k s m at =
      let (m', at', step) = select_next (select_times k metrics s) in
      let same : some m' ≡ some m =
        sym at' ∙ ap (λ (i : ℕ). get_elem? metrics i) (select_times-next k s) ∙ at in
      rw step (cc same)
