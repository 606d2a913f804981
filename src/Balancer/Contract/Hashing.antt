-- ===== src/Balancer/Contract/Hashing.antt =====
-- load_balancer/consistent_hashing.py keeps the contract of a strategy, for any hash function.
use distributed_tickit_syste.Common.{
  ℕ, zero, suc, ◌≤◌, ◌<◌, ◌≡◌, refl, ◌∙◌, ap, inl, inr, String, Option, none, some, List, [], ◌∷◌,
  map, arith, ◌==◌, leb, if◌then◌else◌, length, length-append, get_elem?-lt, All, All-append,
  All-get_elem?, Bool-cases,
}
use distributed_tickit_syste.Balancer.Metrics.{
  ServerMetrics, is_online, online_servers, IsCandidate, online_of_candidate,
}
use distributed_tickit_syste.Balancer.Contract.{Contract}
use mathlib.Core.List.{Memᴰ}
use distributed_tickit_syste.Balancer.ConsistentHashing.{
  Ring, ConsistentHashingStrategy, insert_by_hash, sort, bisect_left, server_at, locate, key_of,
  pick, vnodes_from, vnodes, build_ring, select_server,
}

-- The entry stands for an online server of the metrics.
abbrev Serves : List ServerMetrics → ℕ × String → Type 0
Serves metrics e = (m : ServerMetrics) × IsCandidate m metrics × (m.server_id ≡ e.1)

insert_by_hash-All :
    (P : ℕ × String → Type 0) (e : ℕ × String) (ring : Ring)
    → P e
    → All P ring
    → All P (insert_by_hash e ring)
unfolding insert_by_hash
insert_by_hash-All P e [] p h = (p, tt)
insert_by_hash-All P e (f ∷ ring) p h = elim (Bool-cases (leb e.0 f.0)) [
  | inl le ↦ rw le (p, h)
  | inr gt ↦ rw gt (h.0, insert_by_hash-All P e ring p h.1)
]

sort-All : (P : ℕ × String → Type 0) (ring : Ring) → All P ring → All P (sort ring)
unfolding sort
sort-All P [] h = tt
sort-All P (e ∷ ring) h = insert_by_hash-All P e (sort ring) h.0 (sort-All P ring h.1)

length-insert_by_hash :
    (e : ℕ × String) (ring : Ring) → length (insert_by_hash e ring) ≡ suc (length ring)
unfolding insert_by_hash
length-insert_by_hash e [] = refl
length-insert_by_hash e (f ∷ ring) = ground (arith, length-insert_by_hash e ring)

length-sort : (ring : Ring) → length (sort ring) ≡ length ring
unfolding sort
length-sort [] = refl
length-sort (e ∷ ring) =
    length-insert_by_hash e (sort ring) ∙ ap (λ (n : ℕ). suc n) (length-sort ring)

bisect_left-le : (ring : Ring) (key : ℕ) → bisect_left (map (λ e. e.0) ring) key ≤ length ring
unfolding bisect_left
bisect_left-le [] key = omega arith
bisect_left-le (e ∷ ring) key = ground (arith, bisect_left-le ring key)

-- Some server stands at every index of the ring.
server_at-Serves :
    (metrics : List ServerMetrics) (ring : Ring) (i : ℕ)
    → All (Serves metrics) ring
    → i < length ring
    → (m : ServerMetrics) × (server_at ring i ≡ some m.server_id) × IsCandidate m metrics
server_at-Serves metrics ring i h below =
    let (e, at) = get_elem?-lt i ring below in
    let (m, candidate, same) = All-get_elem? (Serves metrics) ring i e h at in
    let found : server_at ring i ≡ some e.1 = ground (arith, at) in (m, rw same found, candidate)

module _ (hash : String → ℕ) where
  pick-Serves :
      (metrics : List ServerMetrics) (ring : Ring) (key : Option String)
      → All (Serves metrics) ring
      → 0 < length ring
      → (m : ServerMetrics) × (pick hash ring key ≡ some m.server_id) × IsCandidate m metrics
  unfolding locate
  pick-Serves metrics ring none h filled = server_at-Serves metrics ring 0 h filled
  pick-Serves metrics ring (some key) h filled =
      let idx = bisect_left (map (λ e. e.0) ring) (hash key) in
      let le = bisect_left-le ring (hash key) in
      server_at-Serves metrics ring (if idx == length ring then 0 else idx) h (ground arith)

  vnodes_from-All :
      (P : ℕ × String → Type 0) (rounds v : ℕ) (sid : String)
      → ((h : ℕ) → P (h, sid))
      → All P (vnodes_from hash rounds v sid)
  unfolding vnodes_from
  vnodes_from-All P zero v sid p = tt
  vnodes_from-All P (suc rounds) v sid p = (p _, vnodes_from-All P rounds (suc v) sid p)

  vnodes-All :
      (count : ℕ) (P : ℕ × String → Type 0) (metrics : List ServerMetrics)
      → ((m : ServerMetrics) (h : ℕ) → IsCandidate m metrics → P (h, m.server_id))
      → All P (vnodes hash count metrics)
  unfolding vnodes
  vnodes-All count P [] p = tt
  vnodes-All count P (m ∷ metrics) p =
      let rest = vnodes-All count P metrics (λ m' h at. p m' h (Memᴰ.tail at.0, at.1)) in
      elim (Bool-cases (is_online m)) [
        | inl on ↦ rw on (
            All-append P (vnodes_from hash count 0 m.server_id) (vnodes hash count metrics)
              (vnodes_from-All P count 0 m.server_id (λ h. p m h (Memᴰ.head refl, ground arith)))
              rest)
        | inr off ↦ rw off rest
      ]

  length-vnodes_from :
      (rounds v : ℕ) (sid : String) → length (vnodes_from hash rounds v sid) ≡ rounds
  unfolding vnodes_from
  length-vnodes_from zero v sid = refl
  length-vnodes_from (suc rounds) v sid =
      ap (λ (n : ℕ). suc n) (length-vnodes_from rounds (suc v) sid)

  -- A server that is online has all its virtual nodes on the ring.
  vnodes-filled :
      (count : ℕ) (metrics : List ServerMetrics) {n : ServerMetrics}
      → Memᴰ n (online_servers metrics)
      → count ≤ length (vnodes hash count metrics)
  unfolding vnodes
  vnodes-filled count [] h = elim h [ ]
  vnodes-filled count (m ∷ metrics) h = elim (Bool-cases (is_online m)) [
    | inl on ↦
        let whole =
          length-append (vnodes_from hash count 0 m.server_id) (vnodes hash count metrics) in
        let own = length-vnodes_from count 0 m.server_id in rw on (omega (arith, whole, own))
    | inr off ↦ rw off (vnodes-filled count metrics (rw off at h))
  ]

  vnodes-none :
      (count : ℕ) (metrics : List ServerMetrics)
      → online_servers metrics ≡ []
      → vnodes hash count metrics ≡ []
  unfolding vnodes
  vnodes-none count [] e = refl
  vnodes-none count (m ∷ metrics) e = ground (arith, vnodes-none count metrics)

  select_server-filled :
      (metrics : List ServerMetrics) (key : Option String) (s : ConsistentHashingStrategy)
      (n : ServerMetrics)
      → 1 ≤ s.vnode_count
      → IsCandidate n metrics
      → (m : ServerMetrics) × ((select_server hash metrics key s).0 ≡ some m.server_id)
        × IsCandidate m metrics
  unfolding select_server build_ring
  select_server-filled metrics key s n v h =
      let nodes = vnodes hash s.vnode_count metrics in
      let filled = vnodes-filled s.vnode_count metrics (online_of_candidate metrics h.0 h.1) in
      let same = length-sort nodes in
      let serves =
        sort-All (Serves metrics) nodes
          (vnodes-All s.vnode_count (Serves metrics) metrics (λ m hash at. (m, at, refl))) in
      let (m, chosen, at) =
        pick-Serves metrics (sort nodes) (key_of key) serves (omega (arith, filled, same, v)) in
      (m, ground (arith, chosen), at)

  pub ConsistentHashing-Contract :
      Contract
        (λ (s : ConsistentHashingStrategy). 1 ≤ s.vnode_count)
        (λ metrics key s. select_server hash metrics key s)
  unfolding select_server build_ring sort
  ConsistentHashing-Contract = record {
    keeps = λ metrics key s v. v;
    selects = select_server-filled;
    idle = λ metrics key s e. rw (vnodes-none s.vnode_count metrics e) refl;
  }
