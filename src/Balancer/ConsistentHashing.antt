-- ===== src/Balancer/ConsistentHashing.antt =====
-- load_balancer/consistent_hashing.py. `hashlib` is not part of the repository: the hash of a text,
-- `int(md5(text).hexdigest(), 16)`, is the parameter `hash`.
pub mod Remapping
use Prim.Native.String.{◌++◌ as str_append}
use distributed_tickit_syste.Common.{
  ℕ, zero, suc, ◌+◌, String, Bool, true, false, Option, none, some, List, [], ◌∷◌, ◌++◌, map, leb,
  ltb, ◌==◌, if◌then◌else◌, length, get_elem?, ite, string_same,
}
use distributed_tickit_syste.Common.Decimal.{str}
use distributed_tickit_syste.Balancer.Metrics.{ServerMetrics, is_online, online_servers}

-- The ring: hashes with the servers that they stand for.
abbrev pub Ring : Type 0
Ring = List (ℕ × String)

pub record ConsistentHashingStrategy : Type 0 where
  pub vnode_count : ℕ
  pub ring : Ring

-- `max(1, int(vnode_count))`
unfoldable pub init : ℕ → ConsistentHashingStrategy
init vnode_count = record { vnode_count = if vnode_count == 0 then 1 else vnode_count; ring = [] }

-- `f"{sid}-vn-{v}"`
unfoldable pub vnode_key : String → ℕ → String
vnode_key sid v = str_append sid (str_append "-vn-" (str v))

-- `ring.sort(key=lambda t: t[0])`: the sort is stable.
unfoldable pub insert_by_hash : ℕ × String → Ring → Ring
insert_by_hash e [] = e ∷ []
insert_by_hash e (f ∷ ring) = if leb e.0 f.0 then e ∷ f ∷ ring else f ∷ insert_by_hash e ring

unfoldable pub sort : Ring → Ring
unfolding insert_by_hash
sort [] = []
sort (e ∷ ring) = insert_by_hash e (sort ring)

-- `bisect_left`: the number of hashes before the first that is not below `key`.
unfoldable pub bisect_left : List ℕ → ℕ → ℕ
bisect_left [] key = 0
bisect_left (h ∷ hashes) key = if ltb h key then suc (bisect_left hashes key) else 0

-- `_ring[idx][1]`
abbrev pub server_at : Ring → ℕ → Option String
server_at ring idx = elim (get_elem? ring idx) [ none ↦ none | some e ↦ some e.1 ]

-- The server of a hash on a ring that is not empty.
unfoldable pub locate : Ring → ℕ → Option String
unfolding bisect_left
locate ring key_hash =
    let idx = bisect_left (map (λ e. e.0) ring) key_hash in
    server_at ring (if idx == length ring then 0 else idx)

-- `not routing_key`
abbrev pub key_of : Option String → Option String
key_of none = none
key_of (some key) = ite (string_same key "") none (some key)

-- The choice on a ring that is not empty: without a key, its first server.
abbrev pub pick : (String → ℕ) → Ring → Option String → Option String
pick hash ring none = server_at ring 0
pick hash ring (some key) = locate ring (hash key)

module _ (hash : String → ℕ) where
  -- The rounds of the loop over `range(vnode_count)` that are left, from `v` on.
  unfoldable pub vnodes_from : (rounds v : ℕ) → String → Ring
  vnodes_from zero v sid = []
  vnodes_from (suc rounds) v sid = (hash (vnode_key sid v), sid) ∷ vnodes_from rounds (suc v) sid

  -- The entries in the order in which `_build_ring` appends them.
  unfoldable pub vnodes : ℕ → List ServerMetrics → Ring
  unfolding vnodes_from
  vnodes count [] = []
  vnodes count (m ∷ metrics) =
      if is_online m
      then vnodes_from count 0 m.server_id ++ vnodes count metrics
      else vnodes count metrics

  unfoldable pub build_ring :
      List ServerMetrics → ConsistentHashingStrategy → ConsistentHashingStrategy
  unfolding vnodes sort
  build_ring metrics s = record s { ring = sort (vnodes s.vnode_count metrics) }

  unfoldable pub select_server :
      List ServerMetrics
      → Option String
      → ConsistentHashingStrategy
      → Option String × ConsistentHashingStrategy
  select_server metrics routing_key s =
      let s' = build_ring metrics s in
      let chosen = pick hash s'.ring (key_of routing_key) in
      (if length s'.ring == 0 then none else chosen, s')
