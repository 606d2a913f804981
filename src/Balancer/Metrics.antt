-- ===== src/Balancer/Metrics.antt =====
-- load_balancer/metrics.py. A `float` is a whole number of thousandths.
use distributed_tickit_syste.Common.{
  ℕ, String, ◌≡◌, Bool, true, false, List, [], ◌∷◌, filter, arith, Bool-cases, inl, inr, refl,
}
use mathlib.Core.List.{Memᴰ}

pub data Status : Type 0 where
  online offline degraded : Status

pub record ServerMetrics : Type 0 where
  pub server_id : String
  pub cpu_usage : ℕ
  pub active_connections : ℕ
  pub response_time : ℕ
  pub error_rate : ℕ
  pub request_count : ℕ
  pub status : Status

-- `m.status == "online"`
abbrev pub is_online : ServerMetrics → Bool
is_online m = elim m.status [ online ↦ true | _ ↦ false ]

-- `[m for m in metrics if m.status == "online"]`
abbrev pub online_servers : List ServerMetrics → List ServerMetrics
online_servers metrics = filter is_online metrics

-- The server is one of the given ones, and online.
abbrev pub IsCandidate : ServerMetrics → List ServerMetrics → Type 0
IsCandidate m metrics = Memᴰ m metrics × (m.status ≡ online)

pub IsCandidate-of_online :
    {m : ServerMetrics} (metrics : List ServerMetrics)
    → Memᴰ m (online_servers metrics)
    → IsCandidate m metrics
IsCandidate-of_online {m} [] h = elim h [ ]
IsCandidate-of_online {m} (x ∷ metrics) h = elim (Bool-cases (is_online x)) [
  | inl e ↦ first_or_rest (ground arith) (IsCandidate-of_online metrics) (rw e at h)
  | inr e ↦ let r = IsCandidate-of_online metrics (rw e at h) in (Memᴰ.tail r.0, r.1)
]
  where
    first_or_rest :
        x.status ≡ online
        → (Memᴰ m (online_servers metrics) → IsCandidate m metrics)
        → Memᴰ m (x ∷ online_servers metrics)
        → IsCandidate m (x ∷ metrics)
    first_or_rest on rest (Memᴰ.head e) = (Memᴰ.head e, rw e on)
    first_or_rest on rest (Memᴰ.tail t) = (Memᴰ.tail (rest t).0, (rest t).1)

pub online_of_candidate :
    {m : ServerMetrics} (metrics : List ServerMetrics)
    → Memᴰ m metrics
    → m.status ≡ online
    → Memᴰ m (online_servers metrics)
online_of_candidate [] m on = elim m [ ]
online_of_candidate (x ∷ metrics) (Memᴰ.head e) on =
    let x_on : is_online x ≡ true = rw (← e, on) refl in rw x_on (Memᴰ.head e)
online_of_candidate (x ∷ metrics) (Memᴰ.tail t) on = elim (Bool-cases (is_online x)) [
  | inl e ↦ rw e (Memᴰ.tail (online_of_candidate metrics t on))
  | inr e ↦ rw e (online_of_candidate metrics t on)
]
