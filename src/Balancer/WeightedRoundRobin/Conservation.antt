-- ===== src/Balancer/WeightedRoundRobin/Conservation.antt =====
-- A selection adds to the current weights as much as it takes away.
use distributed_tickit_syste.Common.{
  ℕ, ◌+◌, ◌≡◌, refl, ap, ◌∙◌, String, true, none, some, List, [], ◌∷◌, ◌==◌, string_key, arith, inl,
  inr, is_some, All, Bool-cases, Option-cases,
}
use distributed_tickit_syste.Common.Int.{
  ℤ, pos, pos_part, neg_part, ◌+ℤ◌, ◌-ℤ◌, int_laws, +ℤ_parts, -ℤ_parts, eq_of_parts,
}
use distributed_tickit_syste.Common.Dict.{Dict, lookup, insert, lookup-insert}
use distributed_tickit_syste.Balancer.Metrics.{ServerMetrics, online_servers}
use distributed_tickit_syste.Balancer.Extremum.{best_from, best_from-mem}
use distributed_tickit_syste.Balancer.WeightedRoundRobin.{
  WeightedRoundRobinStrategy, weight_for, ensured, prepare, added, raise_all, heavier, lowered,
  choose, among, select_server,
}
use mathlib.Core.List.{Memᴰ}

-- The sum of all current weights.
pub sum : Dict String ℤ → ℤ
sum [] = pos 0
sum ((k, c) ∷ d) = c +ℤ sum d

sum-insert :
    (k : String) (v old : ℤ) (d : Dict String ℤ)
    → lookup k d ≡ some old
    → sum (insert k v d) +ℤ old ≡ sum d +ℤ v
unfolding sum lookup insert
sum-insert k v old [] e = cc
sum-insert k v old ((j, c) ∷ d) e = grind (int_laws, sum-insert k v old d)

sum-insert_new :
    (k : String) (v : ℤ) (d : Dict String ℤ) → lookup k d ≡ none → sum (insert k v d) ≡ sum d +ℤ v
unfolding sum lookup insert
sum-insert_new k v [] e = omega int_laws
sum-insert_new k v ((j, c) ∷ d) e = grind (int_laws, sum-insert_new k v d)

sum-ensured : (k : String) (d : Dict String ℤ) → sum (ensured k d) ≡ sum d
sum-ensured k d = elim (Option-cases (lookup k d)) [
  | inl e ↦ rw (e, ensured) (sum-insert_new k (pos 0) d e ∙ omega int_laws)
  | inr (c, e) ↦ rw (e, ensured) refl
]

raise_lem : (x c d w : ℤ) → x +ℤ c ≡ d +ℤ (c +ℤ w) → x ≡ d +ℤ w
raise_lem x c d w h = eq_of_parts x (d +ℤ w) (
    omega (
      arith,
      +ℤ_parts x c,
      +ℤ_parts d (c +ℤ w),
      +ℤ_parts c w,
      +ℤ_parts d w,
      ap pos_part h,
      ap neg_part h,
    ))

lower_lem : (x c d w : ℤ) → x +ℤ c ≡ d +ℤ (c -ℤ w) → x +ℤ w ≡ d
lower_lem x c d w h = eq_of_parts (x +ℤ w) d (
    omega (
      arith,
      +ℤ_parts x c,
      +ℤ_parts d (c -ℤ w),
      -ℤ_parts c w,
      +ℤ_parts x w,
      ap pos_part h,
      ap neg_part h,
    ))

raise_twice : (d : ℤ) (a b : ℕ) → (d +ℤ pos a) +ℤ pos b ≡ d +ℤ pos (a + b)
raise_twice d a b =
    eq_of_parts _ _
      (omega (arith, +ℤ_parts (d +ℤ pos a) (pos b), +ℤ_parts d (pos a), +ℤ_parts d (pos (a + b))))

zero_plus : (n : ℕ) → 0 + n ≡ n
zero_plus n = omega arith

cancel_lem : (x y w : ℤ) → x +ℤ w ≡ y +ℤ w → x ≡ y
cancel_lem x y w h =
    eq_of_parts x y (omega (arith, +ℤ_parts x w, +ℤ_parts y w, ap pos_part h, ap neg_part h))

sum-added :
    (k : String) (w : ℤ) (c : ℤ) (d : Dict String ℤ)
    → lookup k d ≡ some c
    → sum (added k w d) ≡ sum d +ℤ w
sum-added k w c d e = rw (e, added) (raise_lem _ c _ w (sum-insert k (c +ℤ w) c d e))

sum-lowered :
    (k : String) (n : ℕ) (c : ℤ) (d : Dict String ℤ)
    → lookup k d ≡ some c
    → sum (lowered k n d) +ℤ pos n ≡ sum d
sum-lowered k n c d e = rw (e, lowered) (lower_lem _ c _ (pos n) (sum-insert k (c -ℤ pos n) c d e))

abbrev HasEntry : Dict String ℤ → ServerMetrics → Type 0
HasEntry d m = is_some (lookup m.server_id d) ≡ true

module _ (m : ServerMetrics) (k : String) (d : Dict String ℤ) where
  HasEntry-ensured : HasEntry d m → HasEntry (ensured k d) m
  HasEntry-ensured h = ground (arith, lookup-insert m.server_id k (pos 0) d)

  HasEntry-added : (w : ℤ) → HasEntry d m → HasEntry (added k w d) m
  HasEntry-added w h = elim (Option-cases (lookup k d)) [
    | inl e ↦ rw (e, added) h
    | inr (c, e) ↦ rw (e, added) (ground (arith, lookup-insert m.server_id k (c +ℤ w) d))
  ]

HasEntry-ensured_self : (m : ServerMetrics) (d : Dict String ℤ) → HasEntry (ensured m.server_id d) m
HasEntry-ensured_self m d = ground (arith, lookup-insert m.server_id m.server_id (pos 0) d)

entry_of :
    (m : ServerMetrics) (d : Dict String ℤ)
    → HasEntry d m
    → (c : ℤ) × (lookup m.server_id d ≡ some c)
entry_of m d h = elim (Option-cases (lookup m.server_id d)) [
  | inl e ↦ absurd (ground arith)
  | inr found ↦ found
]

module _ (s : WeightedRoundRobinStrategy) where
  pub total_weight : List ServerMetrics → ℕ
  total_weight [] = 0
  total_weight (m ∷ ms) = weight_for s m.server_id + total_weight ms

  HasEntry-prepare :
      (x : ServerMetrics) (ms : List ServerMetrics) (d : Dict String ℤ) (t : ℕ)
      → HasEntry d x
      → HasEntry (prepare s ms d t).0 x
  unfolding prepare
  HasEntry-prepare x [] d t h = h
  HasEntry-prepare x (m ∷ ms) d t h =
      HasEntry-prepare x ms (ensured m.server_id d) _ (HasEntry-ensured x m.server_id d h)

  prepare_lem :
      (ms : List ServerMetrics) (d : Dict String ℤ) (t : ℕ)
      → (sum (prepare s ms d t).0 ≡ sum d)
        × ((prepare s ms d t).1 ≡ t + total_weight ms)
        × All (HasEntry (prepare s ms d t).0) ms
  unfolding prepare total_weight
  prepare_lem [] d t = (refl, omega arith, tt)
  prepare_lem (m ∷ ms) d t =
      let d' = ensured m.server_id d in
      let (same, total, entries) = prepare_lem ms d' (t + weight_for s m.server_id) in
      (
        same ∙ sum-ensured m.server_id d,
        total ∙ omega arith,
        (HasEntry-prepare m ms d' _ (HasEntry-ensured_self m d), entries),
      )

  HasEntry-raise_all :
      (x : ServerMetrics) (ms : List ServerMetrics) (d : Dict String ℤ)
      → HasEntry d x
      → HasEntry (raise_all s ms d) x
  unfolding raise_all
  HasEntry-raise_all x [] d h = h
  HasEntry-raise_all x (m ∷ ms) d h =
      HasEntry-raise_all x ms (added m.server_id _ d) (HasEntry-added x m.server_id d _ h)

  All-HasEntry-added :
      (ms : List ServerMetrics) (k : String) (w : ℤ) (d : Dict String ℤ)
      → All (HasEntry d) ms
      → All (HasEntry (added k w d)) ms
  All-HasEntry-added [] k w d h = tt
  All-HasEntry-added (m ∷ ms) k w d h =
      (HasEntry-added m k d w h.0, All-HasEntry-added ms k w d h.1)

  sum-raise_all :
      (ms : List ServerMetrics) (d : Dict String ℤ)
      → All (HasEntry d) ms
      → sum (raise_all s ms d) ≡ sum d +ℤ pos (total_weight ms)
  unfolding raise_all total_weight
  sum-raise_all [] d h = omega int_laws
  sum-raise_all (m ∷ ms) d h =
      let w = weight_for s m.server_id in
      let (c, e) = entry_of m d h.0 in
      sum-raise_all ms (added m.server_id (pos w) d)
        (All-HasEntry-added ms m.server_id (pos w) d h.1)
      ∙ ap (λ t. t +ℤ pos (total_weight ms)) (sum-added m.server_id (pos w) c d e)
      ∙ raise_twice (sum d) w (total_weight ms)

  entry_of_mem :
      (x : ServerMetrics) (ms : List ServerMetrics) (d : Dict String ℤ)
      → All (HasEntry d) ms
      → Memᴰ x ms
      → HasEntry d x
  entry_of_mem x [] d h at = elim at [ ]
  entry_of_mem x (m ∷ ms) d h (Memᴰ.head e) = rw e h.0
  entry_of_mem x (m ∷ ms) d h (Memᴰ.tail t) = entry_of_mem x ms d h.1 t

  sum-choose :
      (m : ServerMetrics) (ms : List ServerMetrics) (d : Dict String ℤ)
      → All (HasEntry d) (m ∷ ms)
      → sum (choose s m ms (d, total_weight (m ∷ ms))).1.current ≡ sum d
  unfolding choose
  sum-choose m ms d h = elim (Bool-cases (total_weight (m ∷ ms) == 0)) [
    | inl e ↦ rw e refl
    | inr e ↦
        let raised = raise_all s (m ∷ ms) d in
        let at = best_from-mem (heavier raised) m ms in
        let best = best_from (heavier raised) m ms in
        let (c, found) =
          entry_of best raised
            (HasEntry-raise_all best (m ∷ ms) d (entry_of_mem best (m ∷ ms) d h at)) in
        rw e (
          cancel_lem _ _ (pos (total_weight (m ∷ ms))) (
            sum-lowered best.server_id (total_weight (m ∷ ms)) c raised found
            ∙ sum-raise_all (m ∷ ms) d h))
  ]

  sum-among : (ms : List ServerMetrics) → sum (among s ms).1.current ≡ sum s.current
  sum-among [] = refl
  sum-among (m ∷ ms) =
      let (same, total, entries) = prepare_lem (m ∷ ms) s.current 0 in
      let d = (prepare s (m ∷ ms) s.current 0).0 in
      ap (λ t. sum (choose s m ms (d, t)).1.current) (total ∙ zero_plus (total_weight (m ∷ ms)))
      ∙ sum-choose m ms d entries
      ∙ same

  -- Whatever the weights and the servers, a call of `select_server` leaves the sum of the current
  -- weights as it was.
  pub sum-select_server :
      (metrics : List ServerMetrics) → sum (select_server metrics s).1.current ≡ sum s.current
  unfolding select_server
  sum-select_server metrics = sum-among (online_servers metrics)
