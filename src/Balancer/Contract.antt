-- ===== src/Balancer/Contract.antt =====
-- The contract of `LoadBalancingStrategy` (load_balancer/strategy.py): what `select_server` may
-- return, for the clients of any strategy.
pub mod Rotation
pub mod Weights
pub mod Scores
pub mod Hashing
pub mod Client
use distributed_tickit_syste.Common.{String, ◌≡◌, refl, sym, ◌∙◌, Option, none, some, List, [], ◌∷◌}
use distributed_tickit_syste.Balancer.Metrics.{
  ServerMetrics, online_servers, IsCandidate, IsCandidate-of_online,
}
use mathlib.Core.List.{Memᴰ}

-- The type of `select_server` over the state of the strategy object.
abbrev pub SelectType : Type 0 → Type 0
SelectType State = List ServerMetrics → Option String → State → Option String × State

-- A selection is right: the id is that of an online server, and there is none only if no server is
-- online.
abbrev pub IsRight : List ServerMetrics → Option String → Type 0
IsRight metrics none = (m : ServerMetrics) → IsCandidate m metrics → ⊥
IsRight metrics (some sid) = (m : ServerMetrics) × IsCandidate m metrics × (m.server_id ≡ sid)

-- The laws, for the states that are valid.
pub record Contract {State : Type 0} (IsValid : State → Type 0) (select_server : SelectType State)
    : Type 0 where
  pub keeps :
      (metrics : List ServerMetrics) (key : Option String) (s : State)
      → IsValid s
      → IsValid (select_server metrics key s).1
  pub selects :
      (metrics : List ServerMetrics) (key : Option String) (s : State) (n : ServerMetrics)
      → IsValid s
      → IsCandidate n metrics
      → (m : ServerMetrics) × ((select_server metrics key s).0 ≡ some m.server_id)
        × IsCandidate m metrics
  pub idle :
      (metrics : List ServerMetrics) (key : Option String) (s : State)
      → online_servers metrics ≡ []
      → (select_server metrics key s).0 ≡ none
