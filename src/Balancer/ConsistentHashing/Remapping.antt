-- ===== src/Balancer/ConsistentHashing/Remapping.antt =====
-- A server that leaves or joins takes or gives only its own keys.
use distributed_tickit_syste.Common.{
  ℕ, zero, suc, ◌≤◌, ◌≡◌, ◌≢◌, refl, sym, ap, ◌∙◌, String, Bool, true, false, Option, none, some,
  List, [], ◌∷◌, ◌++◌, map, ltb, ◌==◌, if◌then◌else◌, length, ite, string_same, filter, arith,
}
use distributed_tickit_syste.Balancer.Metrics.{ServerMetrics}
use distributed_tickit_syste.Balancer.ConsistentHashing.{
  Ring, ConsistentHashingStrategy, insert_by_hash, sort, bisect_left, server_at, locate, key_of,
  vnodes_from, vnodes, build_ring, select_server, pick,
}

-- The first server at or after a hash.
first_from : ℕ → Ring → Option String
first_from key [] = none
first_from key (e ∷ ring) = if ltb e.0 key then first_from key ring else some e.1

-- Round the end of the ring to its start.
or_else : Option String → Option String → Option String
or_else none other = other
or_else (some s) other = some s

server_at_bisect :
    (key : ℕ) (ring : Ring)
    → server_at ring (bisect_left (map (λ e. e.0) ring) key) ≡ first_from key ring
unfolding first_from bisect_left
server_at_bisect key [] = refl
server_at_bisect key (e ∷ ring) = ground (arith, server_at_bisect key ring)

bisect-eq-length :
    (key : ℕ) (ring : Ring)
    → (bisect_left (map (λ e. e.0) ring) key == length ring)
      ≡ (elim (first_from key ring) [ none ↦ true | some s ↦ false ])
unfolding first_from bisect_left
bisect-eq-length key [] = refl
bisect-eq-length key (e ∷ ring) = ground (arith, bisect-eq-length key ring)

locate-first :
    (key : ℕ) (ring : Ring) → locate ring key ≡ or_else (first_from key ring) (server_at ring 0)
unfolding locate or_else
locate-first key ring = ground (arith, server_at_bisect key ring, bisect-eq-length key ring)

-- In ascending order of the hashes.
abbrev IsSorted : Ring → Type 0
IsSorted [] = Unit
IsSorted (e ∷ []) = Unit
IsSorted (e ∷ f ∷ ring) = (e.0 ≤ f.0) × IsSorted (f ∷ ring)

insert_by_hash-IsSorted :
    (e : ℕ × String) (ring : Ring) → IsSorted ring → IsSorted (insert_by_hash e ring)
unfolding insert_by_hash
insert_by_hash-IsSorted e [] s = tt
insert_by_hash-IsSorted e (f ∷ []) s = ground arith
insert_by_hash-IsSorted e (f ∷ g ∷ ring) s =
    ground (arith, insert_by_hash-IsSorted e (g ∷ ring) s.1)

sort-IsSorted : (ring : Ring) → IsSorted (sort ring)
unfolding sort
sort-IsSorted [] = tt
sort-IsSorted (e ∷ ring) = insert_by_hash-IsSorted e (sort ring) (sort-IsSorted ring)

IsSorted-tail : (e : ℕ × String) (ring : Ring) → IsSorted (e ∷ ring) → IsSorted ring
IsSorted-tail e [] s = tt
IsSorted-tail e (f ∷ ring) s = s.1

module _ (gone : String) where
  abbrev stays : ℕ × String → Bool
  stays e = ite (string_same e.1 gone) false true

  abbrev pub remains : ServerMetrics → Bool
  remains m = ite (string_same m.server_id gone) false true

  -- Nothing on a sorted ring lies before its first entry.
  insert-below :
      (e : ℕ × String) (f : ℕ × String) (ring : Ring)
      → IsSorted (f ∷ ring)
      → e.0 ≤ f.0
      → insert_by_hash e (filter stays ring) ≡ e ∷ filter stays ring
  unfolding insert_by_hash
  insert-below e f [] s h = refl
  insert-below e f (g ∷ ring) s h = ground (arith, insert-below e g ring s.1)

  filter-insert :
      (e : ℕ × String) (ring : Ring)
      → IsSorted ring
      → filter stays (insert_by_hash e ring)
        ≡ (if stays e then insert_by_hash e (filter stays ring) else filter stays ring)
  unfolding insert_by_hash
  filter-insert e [] s = ground arith
  filter-insert e (f ∷ ring) s =
      ground (arith, filter-insert e ring (IsSorted-tail f ring s), insert-below e f ring s)

  filter-sort : (ring : Ring) → filter stays (sort ring) ≡ sort (filter stays ring)
  unfolding sort
  filter-sort [] = refl
  filter-sort (e ∷ ring) =
      filter-insert e (sort ring) (sort-IsSorted ring) ∙ ground (arith, filter-sort ring)

  filter-append : (xs ys : Ring) → filter stays (xs ++ ys) ≡ filter stays xs ++ filter stays ys
  filter-append [] ys = refl
  filter-append (x ∷ xs) ys = ground (arith, filter-append xs ys)

  first_from-filter :
      (key : ℕ) (ring : Ring) (s : String)
      → first_from key ring ≡ some s
      → s ≢ gone
      → first_from key (filter stays ring) ≡ some s
  unfolding first_from
  first_from-filter key [] s e h = cc
  first_from-filter key (x ∷ ring) s e h = ground (arith, first_from-filter key ring s)

  first_from-filter-none :
      (key : ℕ) (ring : Ring)
      → first_from key ring ≡ none
      → first_from key (filter stays ring) ≡ none
  unfolding first_from
  first_from-filter-none key [] e = refl
  first_from-filter-none key (x ∷ ring) e = ground (arith, first_from-filter-none key ring)

  server_at-filter :
      (ring : Ring) (s : String)
      → server_at ring 0 ≡ some s
      → s ≢ gone
      → server_at (filter stays ring) 0 ≡ some s
  server_at-filter [] s e h = cc
  server_at-filter (x ∷ ring) s e h = ground arith

  locate-filter :
      (key : ℕ) (ring : Ring) (s : String)
      → locate ring key ≡ some s
      → s ≢ gone
      → locate (filter stays ring) key ≡ some s
  unfolding or_else
  locate-filter key ring s e h = ground (
    arith,
    locate-first key ring,
    locate-first key (filter stays ring),
    first_from-filter key ring s,
    first_from-filter-none key ring,
    server_at-filter ring s,
  )

  module _ (hash : String → ℕ) where
    vnodes_from-filter :
        (rounds v : ℕ) (sid : String)
        → filter stays (vnodes_from hash rounds v sid)
          ≡ ite (string_same sid gone) [] (vnodes_from hash rounds v sid)
    unfolding vnodes_from
    vnodes_from-filter zero v sid = ground arith
    vnodes_from-filter (suc rounds) v sid = ground (arith, vnodes_from-filter rounds (suc v) sid)

    vnodes-filter :
        (count : ℕ) (metrics : List ServerMetrics)
        → vnodes hash count (filter remains metrics) ≡ filter stays (vnodes hash count metrics)
    unfolding vnodes
    vnodes-filter count [] = refl
    vnodes-filter count (m ∷ metrics) = ground (
      arith,
      vnodes-filter count metrics,
      vnodes_from-filter count 0 m.server_id,
      filter-append (vnodes_from hash count 0 m.server_id) (vnodes hash count metrics),
    )

    ring-filter :
        (metrics : List ServerMetrics) (s : ConsistentHashingStrategy)
        → (build_ring hash (filter remains metrics) s).ring
          ≡ filter stays (build_ring hash metrics s).ring
    unfolding build_ring
    ring-filter metrics s =
        ap sort (vnodes-filter s.vnode_count metrics)
        ∙ sym (filter-sort (vnodes hash s.vnode_count metrics))

    -- The test for an empty ring does not matter to a choice that finds none there.
    pick_total :
        (ring : Ring) (key : Option String)
        → (if length ring == 0 then none else pick hash ring key) ≡ pick hash ring key
    unfolding locate bisect_left
    pick_total [] none = refl
    pick_total [] (some key) = refl
    pick_total (x ∷ ring) key = ground arith

    pick-filter :
        (ring : Ring) (key : Option String) (server : String)
        → pick hash ring key ≡ some server
        → server ≢ gone
        → pick hash (filter stays ring) key ≡ some server
    pick-filter ring none server e h = server_at-filter ring server e h
    pick-filter ring (some key) server e h = locate-filter (hash key) ring server e h

    -- Minimal remapping, for any hash function and any routing key: when the server `gone` is taken
    -- out of the metrics, a key that was routed to another server is routed to it as before. Read
    -- backwards: a server that joins gets keys, and no key moves between the others.
    pub minimal_remapping :
        (metrics : List ServerMetrics) (routing_key : Option String) (s : ConsistentHashingStrategy)
        (server : String)
        → (select_server hash metrics routing_key s).0 ≡ some server
        → server ≢ gone
        → (select_server hash (filter remains metrics) routing_key s).0 ≡ some server
    unfolding select_server
    minimal_remapping metrics routing_key s server e h =
        pick_total (build_ring hash (filter remains metrics) s).ring (key_of routing_key)
        ∙ rw ring-filter (
            pick-filter (build_ring hash metrics s).ring (key_of routing_key) server
              (sym (pick_total (build_ring hash metrics s).ring (key_of routing_key)) ∙ e) h)
