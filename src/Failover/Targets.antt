-- ===== src/Failover/Targets.antt =====
-- The servers that `FailoverManager` routes to.
use distributed_tickit_syste.Common.{
  ◌≡◌, refl, String, Bool, true, false, ◌&&◌, none, some, List, [], ◌∷◌, map, filter, arith,
  Bool-cases, inl, inr, ◌↔◌, string_key,
}
use distributed_tickit_syste.Common.Dict.{lookup}
use distributed_tickit_syste.Balancer.Metrics.{ServerMetrics, online, is_online}
use distributed_tickit_syste.Failover.Manager.{
  FailoverManager, not_failed, is_usable, get_healthy_servers, choose_failover_target, first,
}
use mathlib.Core.List.{Memᴰ}

-- The metrics hold an online server with this id that is not known to be unhealthy.
abbrev pub Usable : String → List ServerMetrics → FailoverManager → Type 0
Usable server_id metrics m =
    (metric : ServerMetrics) × Memᴰ metric metrics
    × (metric.server_id ≡ server_id)
    × (metric.status ≡ online)
    × (not_failed (lookup metric.server_id m.states) ≡ true)

online_of_test : (metric : ServerMetrics) → is_online metric ≡ true → metric.status ≡ online
online_of_test metric h = ground arith

and_true : (a b : Bool) → a && b ≡ true → (a ≡ true) × (b ≡ true)
and_true true true h = (refl, refl)
and_true true false h = absurd (ground arith)
and_true false b h = absurd (ground arith)

module _ (m : FailoverManager) where
  Usable-of_mem :
      (metrics : List ServerMetrics) {server_id : String}
      → Memᴰ server_id (get_healthy_servers metrics m)
      → Usable server_id metrics m
  unfolding get_healthy_servers
  Usable-of_mem [] h = elim h [ ]
  Usable-of_mem (x ∷ metrics) h = elim (Bool-cases (is_usable m x)) [
    | inl e ↦ first_or_rest e (Usable-of_mem metrics) (rw e at h)
    | inr e ↦
        let (metric, at, same, on, up) = Usable-of_mem metrics (rw e at h) in
        (metric, Memᴰ.tail at, same, on, up)
  ]
    where
      first_or_rest :
          {server_id : String}
          → is_usable m x ≡ true
          → (Memᴰ server_id
                (map (λ (metric : ServerMetrics). metric.server_id) (filter (is_usable m) metrics))
              → Usable server_id metrics m)
          → Memᴰ server_id (
              x.server_id
              ∷ map (λ (metric : ServerMetrics). metric.server_id) (filter (is_usable m) metrics))
          → Usable server_id (x ∷ metrics) m
      first_or_rest usable rest (Memᴰ.head e) =
          let (on, up) = and_true _ _ usable in (x, Memᴰ.head refl, cc, online_of_test x on, up)
      first_or_rest usable rest (Memᴰ.tail t) =
          let (metric, at, same, on, up) = rest t in (metric, Memᴰ.tail at, same, on, up)

  mem_of_usable :
      (metrics : List ServerMetrics) {server_id : String}
      → Usable server_id metrics m
      → Memᴰ server_id (get_healthy_servers metrics m)
  unfolding get_healthy_servers
  mem_of_usable [] (metric, at, same, on, up) = elim at [ ]
  mem_of_usable (x ∷ metrics) (metric, Memᴰ.head e, same, on, up) =
      let usable : is_usable m x ≡ true = rw (← e, on, up) refl in rw usable (Memᴰ.head cc)
  mem_of_usable (x ∷ metrics) (metric, Memᴰ.tail t, same, on, up) =
      elim (Bool-cases (is_usable m x)) [
        | inl e ↦ rw e (Memᴰ.tail (mem_of_usable metrics (metric, t, same, on, up)))
        | inr e ↦ rw e (mem_of_usable metrics (metric, t, same, on, up))
      ]

  first-mem :
      (ids : List String) (server_id : String) → first ids ≡ some server_id → Memᴰ server_id ids
  first-mem [] server_id h = absurd (ground arith)
  first-mem (x ∷ ids) server_id h = Memᴰ.head cc

  first-none : (ids : List String) → first ids ≡ none → ids ≡ []
  first-none [] h = refl
  first-none (x ∷ ids) h = absurd (ground arith)

  -- `get_healthy_servers` returns exactly the servers of the metrics that are online and not known
  -- to be unhealthy.
  pub get_healthy_servers_lem :
      (metrics : List ServerMetrics) (server_id : String)
      → Memᴰ server_id (get_healthy_servers metrics m) ↔ Usable server_id metrics m
  get_healthy_servers_lem metrics server_id = (Usable-of_mem metrics, mem_of_usable metrics)

  -- `choose_failover_target` returns a server only if it is online and not known to be unhealthy,
  -- and returns `None` only if no server of the metrics is.
  pub choose_failover_target_lem :
      (metrics : List ServerMetrics)
      → ((server_id : String)
          → choose_failover_target metrics m ≡ some server_id
          → Usable server_id metrics m)
        × (choose_failover_target metrics m ≡ none
            → (server_id : String) → ¬ Usable server_id metrics m)
  unfolding choose_failover_target
  choose_failover_target_lem metrics = (
    λ server_id chosen. Usable-of_mem metrics (first-mem _ server_id chosen),
    λ none_left server_id usable.
        no_mem (rw (first-none _ none_left) at (mem_of_usable metrics usable)),
  )
    where
      no_mem : {server_id : String} → Memᴰ server_id [] → ⊥
      no_mem h = elim h [ ]
