-- ===== src/Balancer/Contract/Rotation.antt =====
-- load_balancer/round_robin.py keeps the contract of a strategy.
use distributed_tickit_syste.Common.{
  ℕ, zero, suc, ◌+◌, ◌-◌, ◌%◌, ◌<◌, ◌≡◌, refl, sym, ap, ◌∙◌, inl, inr, true, Option, none, some,
  List, [], ◌∷◌, arith, length, get_elem?, leb, if◌then◌else◌, Bool-cases, Option-cases,
}
use native.Mathlib.Nat.{mod-lt, mod-add-mod, mod-eq_of_lt, add-mod_right, zero-add}
use distributed_tickit_syste.Balancer.Metrics.{
  ServerMetrics, is_online, online_servers, online, IsCandidate, online_of_candidate,
}
use distributed_tickit_syste.Balancer.Contract.{Contract}
use mathlib.Core.List.{Memᴰ}
use distributed_tickit_syste.Balancer.RoundRobin.{
  next_index, at_offset, IsDown, find_online, select_server,
}

Mem-get_elem? :
    (metrics : List ServerMetrics) (i : ℕ) {m : ServerMetrics}
    → get_elem? metrics i ≡ some m
    → Memᴰ m metrics
Mem-get_elem? [] i e = absurd (cc)
Mem-get_elem? (x ∷ metrics) zero e = Memᴰ.head (cc)
Mem-get_elem? (x ∷ metrics) (suc i) e = Memᴰ.tail (Mem-get_elem? metrics i e)

index_of :
    {m : ServerMetrics} (metrics : List ServerMetrics)
    → Memᴰ m metrics
    → (i : ℕ) × (i < length metrics) × (get_elem? metrics i ≡ some m)
index_of [] h = elim h [ ]
index_of (x ∷ metrics) (Memᴰ.head e) = (0, omega arith, cc)
index_of (x ∷ metrics) (Memᴰ.tail h) =
    let (i, below, at) = index_of metrics h in (suc i, omega arith, at)

-- What the loop finds is online and among the servers.
find_online_sound :
    (rounds offset start : ℕ) (metrics : List ServerMetrics) (found : ℕ × ServerMetrics)
    → find_online rounds offset start metrics ≡ some found
    → Memᴰ found.1 metrics × (is_online found.1 ≡ true)
unfolding find_online
find_online_sound zero offset start metrics found e = absurd (cc)
find_online_sound (suc rounds) offset start metrics found e =
    by_place (at_offset start offset metrics) refl
      (find_online_sound rounds (suc offset) start metrics found) e
  where
    rest : Option (ℕ × ServerMetrics)
    rest = find_online rounds (suc offset) start metrics

    by_place :
        (place : Option ServerMetrics)
        → at_offset start offset metrics ≡ place
        → (rest ≡ some found → Memᴰ found.1 metrics × (is_online found.1 ≡ true))
        → (elim place as (λ _. Option (ℕ × ServerMetrics)) [
          | none ↦ rest
          | some m ↦ if is_online m then some ((start + offset) % length metrics, m) else rest
        ])
          ≡ some found
        → Memᴰ found.1 metrics × (is_online found.1 ≡ true)
    by_place none at later e' = later e'
    by_place (some m) at later e' = elim (Bool-cases (is_online m)) [
      | inl on ↦
          let here = Mem-get_elem? metrics _ at in
          let taken : some ((start + offset) % length metrics, m) ≡ some found = rw on at e' in
          let same : m ≡ found.1 = ap found_or taken in (rw same at here, rw same at on)
      | inr off ↦ later (rw off at e')
    ]
      where
        found_or : Option (ℕ × ServerMetrics) → ServerMetrics
        found_or none = m
        found_or (some f) = f.1

nothing_here :
    (place : Option ServerMetrics) (idx : ℕ) (rest : Option (ℕ × ServerMetrics))
    → (elim place as (λ _. Option (ℕ × ServerMetrics)) [
      | none ↦ rest
      | some m ↦ if is_online m then some (idx, m) else rest
    ])
      ≡ none
    → IsDown place × (rest ≡ none)
nothing_here none idx rest e = (tt, e)
nothing_here (some m) idx rest e = ground arith

-- A loop that finds nothing has seen no server that is online.
IsDown-of_none :
    (rounds offset start i : ℕ) (metrics : List ServerMetrics)
    → i < rounds
    → find_online rounds offset start metrics ≡ none
    → IsDown (at_offset start (offset + i) metrics)
unfolding find_online
IsDown-of_none zero offset start i metrics h e = absurd (omega arith)
IsDown-of_none (suc rounds) offset start zero metrics h e =
    let same : offset + 0 ≡ offset = omega arith in
    rw same (nothing_here (at_offset start offset metrics) _ _ e).0
IsDown-of_none (suc rounds) offset start (suc i) metrics h e =
    let shift : offset + suc i ≡ suc offset + i = omega arith in
    rw shift (
      IsDown-of_none rounds (suc offset) start i metrics (omega arith)
        (nothing_here (at_offset start offset metrics) _ _ e).1)

-- The offset at which the loop comes to the place `j`.
offset_of : (n start j : ℕ) → j < n → (i : ℕ) × (i < n) × ((start + i) % n ≡ j)
offset_of n start j h =
    let small : start % n < n = mod-lt start (omega (arith, h)) in
    let reached : (i k : ℕ) → start % n + i ≡ k → (start + i) % n ≡ k % n =
      λ i k e. sym (mod-add-mod start n i) ∙ ap (λ (x : ℕ). x % n) e in
    elim (Bool-cases (leb (start % n) j)) [
      | inl le ↦
          (j - start % n, ground arith, reached (j - start % n) j (ground arith) ∙ mod-eq_of_lt h)
      | inr gt ↦ (
        j + n - start % n,
        ground arith,
        reached (j + n - start % n) (j + n) (ground arith) ∙ add-mod_right j n ∙ mod-eq_of_lt h,
      )
    ]

contradicts :
    (place : Option ServerMetrics) (m : ServerMetrics)
    → place ≡ some m
    → m.status ≡ online
    → IsDown place
    → ⊥
contradicts none m e on down = absurd (cc)
contradicts (some m') m e on down = let same : m' ≡ m = cc in ground arith

sees_candidate :
    (metrics : List ServerMetrics) (start : ℕ) (n : ServerMetrics)
    → IsCandidate n metrics
    → find_online (length metrics) 0 start metrics ≡ none
    → ⊥
sees_candidate metrics start n h e =
    let (j, below, here) = index_of metrics h.0 in
    let (i, small, there) = offset_of (length metrics) start j below in
    contradicts (at_offset start i metrics) n (ap (λ (x : ℕ). get_elem? metrics x) there ∙ here) h.1
      (rw (zero-add i) at (IsDown-of_none (length metrics) 0 start i metrics small e))

find_online-none :
    (metrics : List ServerMetrics) (start : ℕ)
    → online_servers metrics ≡ []
    → find_online (length metrics) 0 start metrics ≡ none
find_online-none metrics start e =
    elim (Option-cases (find_online (length metrics) 0 start metrics)) [
      | inl nothing ↦ nothing
      | inr (found, at) ↦
          let (here, on) = find_online_sound (length metrics) 0 start metrics found at in
          let is : Memᴰ found.1 (online_servers metrics) =
            online_of_candidate metrics here (ground arith) in
          elim (rw e at is) [ ]
    ]

pub RoundRobin-Contract : Contract (λ s. Unit {0}) (λ metrics key s. select_server metrics s)
unfolding select_server
RoundRobin-Contract = record {
  keeps = λ metrics key s v. tt;
  selects = λ metrics key s n v h.
      elim (Option-cases (find_online (length metrics) 0 (next_index s) metrics)) [
        | inl nothing ↦ absurd (sees_candidate metrics (next_index s) n h nothing)
        | inr (found, at) ↦
            let (here, on) = find_online_sound (length metrics) 0 (next_index s) metrics found at in
            (found.1, rw (at, select_server) refl, (here, ground arith))
      ];
  idle = λ metrics key s e. rw (select_server, find_online-none metrics (next_index s) e) refl;
}
