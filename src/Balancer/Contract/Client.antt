-- ===== src/Balancer/Contract/Client.antt =====
-- load_balancer/load_balancer.py: the coordinator over any strategies that keep the contract.
use distributed_tickit_syste.Common.{
  String, ◌≡◌, refl, Bool, true, false, Option, none, some, List, [], ◌∷◌, All, is_some,
}
use distributed_tickit_syste.Balancer.Metrics.{
  ServerMetrics, online_servers, IsCandidate-of_online, online_of_candidate,
}
use distributed_tickit_syste.Balancer.Contract.{Contract, SelectType, IsRight}
use distributed_tickit_syste.Balancer.Coordinator
use distributed_tickit_syste.Balancer.Coordinator.{
  LoadBalancer, LoadBalancingStrategy, Selection, selected, not_configured,
}
use mathlib.Core.List.{Memᴰ}

-- Whatever keeps the contract selects right.
pub selection-IsRight :
    {State : Type 0} {IsValid : State → Type 0} {select_server : SelectType State}
    (c : Contract IsValid select_server) (metrics : List ServerMetrics) (key : Option String)
    (s : State)
    → IsValid s
    → IsRight metrics (select_server metrics key s).0
selection-IsRight {State} {IsValid} {select_server} c metrics key s v =
    by_online (online_servers metrics) refl
  where
    by_online :
        (ms : List ServerMetrics)
        → online_servers metrics ≡ ms
        → IsRight metrics (select_server metrics key s).0
    by_online [] e =
        rw (c.idle metrics key s e)
          (λ m h. elim (rw e at (online_of_candidate metrics h.0 h.1)) [ ])
    by_online (n ∷ ms) e =
        let first : Memᴰ n (online_servers metrics) = rw e (Memᴰ.head refl) in
        let (m, chosen, at) = c.selects metrics key s n v (IsCandidate-of_online metrics first) in
        rw chosen (m, at, refl)

-- The strategy keeps the contract, and is in a state in which it does.
pub record Sound (s : LoadBalancingStrategy) : Type 1 where
  pub IsValid : s.State → Type 0
  pub contract : Contract IsValid s.select_server
  pub valid : IsValid s.state

abbrev pub IsSound : Option LoadBalancingStrategy → Type 1
IsSound none = Unit
IsSound (some s) = Sound s

-- The calls of a client of the coordinator.
pub data Call : Type 1 where
  select : List ServerMetrics → (routing_key : Option String) → Call
  set_strategy : Option LoadBalancingStrategy → Call

-- Only sound strategies are set.
abbrev pub IsAllowed : Call → Type 1
IsAllowed (select metrics key) = Unit
IsAllowed (set_strategy s) = IsSound s

-- What the selections of a run return or raise.
pub run : List Call → LoadBalancer → List Selection
run [] lb = []
run (select metrics key ∷ calls) lb =
    let (selection, lb') = Coordinator.select metrics key lb in selection ∷ run calls lb'
run (set_strategy s ∷ calls) lb = run calls (Coordinator.set_strategy s lb)

-- The specification: what one selection may give, with a strategy set or without.
abbrev pub IsAnswer : (configured : Bool) → List ServerMetrics → Selection → Type 0
IsAnswer true metrics (selected chosen) = IsRight metrics chosen
IsAnswer false metrics not_configured = Unit
IsAnswer _ _ _ = ⊥

-- What the selections of a whole run may give.
abbrev pub AreAnswers : (configured : Bool) → List Call → List Selection → Type 0
AreAnswers configured [] [] = Unit
AreAnswers configured (select metrics key ∷ calls) (selection ∷ selections) =
    IsAnswer configured metrics selection × AreAnswers configured calls selections
AreAnswers configured (set_strategy s ∷ calls) selections = AreAnswers (is_some s) calls selections
AreAnswers _ _ _ = ⊥

select-keeps :
    (metrics : List ServerMetrics) (key : Option String) (lb : LoadBalancer)
    → IsSound lb.strategy
    → IsAnswer (is_some lb.strategy) metrics (Coordinator.select metrics key lb).0
      × IsSound (Coordinator.select metrics key lb).1.strategy
      × (is_some (Coordinator.select metrics key lb).1.strategy ≡ is_some lb.strategy)
unfolding Coordinator.select
select-keeps metrics key lb v = by_strategy lb.strategy refl v
  where
    by_strategy :
        (strategy : Option LoadBalancingStrategy)
        → lb.strategy ≡ strategy
        → IsSound strategy
        → IsAnswer (is_some lb.strategy) metrics (Coordinator.select metrics key lb).0
          × IsSound (Coordinator.select metrics key lb).1.strategy
          × (is_some (Coordinator.select metrics key lb).1.strategy ≡ is_some lb.strategy)
    by_strategy none e v' = rw (e, Coordinator.select) (tt, v, rw e refl)
    by_strategy (some s) e v' =
        rw (e, Coordinator.select)
          (
            selection-IsRight v'.contract metrics key s.state v'.valid,
            record {
              IsValid = v'.IsValid;
              contract = v'.contract;
              valid = v'.contract.keeps metrics key s.state v'.valid;
            },
            refl,
          )

-- Every strategy that keeps the contract can stand behind the coordinator: in any sequence of
-- selections and changes of the strategy, a selection raises if and only if no strategy is set, and
-- otherwise gives the id of an online server of its own metrics, or none when no server there is
-- online.
pub run-AreAnswers :
    (calls : List Call) (lb : LoadBalancer)
    → All IsAllowed calls
    → IsSound lb.strategy
    → AreAnswers (is_some lb.strategy) calls (run calls lb)
unfolding run Coordinator.set_strategy
run-AreAnswers [] lb allowed v = tt
run-AreAnswers (select metrics key ∷ calls) lb allowed v =
    let (answer, v', same) = select-keeps metrics key lb v in
    (answer, rw same at (run-AreAnswers calls (Coordinator.select metrics key lb).1 allowed.1 v'))
run-AreAnswers (set_strategy s ∷ calls) lb allowed v =
    run-AreAnswers calls (Coordinator.set_strategy s lb) allowed.1 allowed.0
