-- ===== src/Booking/Unserved.antt =====
-- When a booking fails for want of a server.
use distributed_tickit_syste.Common.{
  ℕ, ◌≡◌, ◌≢◌, refl, inl, inr, String, Option, none, some, List, [], ◌∷◌, ite, string_same, All,
  Option-cases, nat_key, string_key,
}
use Prim.Native.String.{◌++◌ as str_append}
use mathlib.Core.List.{Memᴰ}
use distributed_tickit_syste.Common.Decimal.{str}
use distributed_tickit_syste.Common.Dict.{Dict, lookup}
use distributed_tickit_syste.Balancer.Metrics.{ServerMetrics, IsCandidate}
use distributed_tickit_syste.Booking.Desk.{Seat, SeatStatus, available, locked, reserved}
use distributed_tickit_syste.Booking.Routing
use distributed_tickit_syste.Booking.Choice.{IsValid, select-Contract}
use distributed_tickit_syste.Booking.App.{
  App, Server, Reply, done, fails, fail, pure, ◌>>=◌, not_retryable, no_server, current_metrics,
  MetricReadings, metric_of, metrics_of, ingested, read_breaker,
}
use distributed_tickit_syste.Booking.Book.{
  BookReadings, begin_booking, check_state, check_seat, or_no_server, select_server, book_locked,
}
use distributed_tickit_syste.Booking.Steps.{
  bind_done, bind_fails, current_metrics-Keeps, from_selected, from_metrics,
}
use distributed_tickit_syste.Booking.Finds.{
  check_seat-Finds, current_metrics-Finds, from_selected-Finds,
}
use distributed_tickit_syste.Booking.Reach.{Reach}
use distributed_tickit_syste.Booking.Routable.{Reach-IsValid}

-- No server has the empty id, which the source takes for none.
abbrev pub AreNamed : Dict String Server → Type 0
AreNamed servers = All (λ e. e.0 ≢ "") servers

metric_of-HasName :
    (r : MetricReadings) (sid : String) (server : Server) (a : App) (m : ServerMetrics)
    → sid ≢ ""
    → (metric_of r sid server a).0 ≡ done m
    → m.server_id ≢ ""
unfolding metric_of
metric_of-HasName r sid server a m named e = elim (Option-cases (lookup sid a.breakers)) [
  | inl missing ↦ let e' = rw (missing, metric_of) at e in absurd (cc)
  | inr (b, at) ↦
      let read : ◌≡◌ {A = Reply ServerMetrics} (done (read_breaker r sid server b).0) (done m) =
        rw (at, metric_of) at e in
      let same : (read_breaker r sid server b).0 ≡ m = cc in rw (← same) named
]

metrics_of-HasName :
    (r : MetricReadings) (servers : Dict String Server) (a : App) (metrics : List ServerMetrics)
    → AreNamed servers
    → (metrics_of r servers a).0 ≡ done metrics
    → All (λ m. m.server_id ≢ "") metrics
unfolding metrics_of
metrics_of-HasName r [] a [] named e = tt
metrics_of-HasName r [] a (m ∷ metrics) named e = absurd (cc)
metrics_of-HasName r ((sid, server) ∷ servers) a metrics named e =
    let (m, first, e') =
      bind_done (metric_of r sid server)
        (λ metric. metrics_of r servers >>= λ rest. pure (metric ∷ rest)) a e in
    let a' = (metric_of r sid server a).1 in
    let (rest, others, e'') = bind_done (metrics_of r servers) (λ rest. pure (m ∷ rest)) a' e' in
    let same : m ∷ rest ≡ metrics = cc in
    let head = metric_of-HasName r sid server a m named.0 first in
    let tail = metrics_of-HasName r servers a' rest named.1 others in rw (← same) (head, tail)

current_metrics-HasName :
    (r : MetricReadings) (a : App) (metrics : List ServerMetrics)
    → AreNamed a.servers
    → (current_metrics r a).0 ≡ done metrics
    → All (λ m. m.server_id ≢ "") metrics
unfolding current_metrics
current_metrics-HasName r a metrics named e =
    let (read, got, e') = bind_done (metrics_of r a.servers) ingested a e in
    let same : read ≡ metrics = cc in rw (← same) (metrics_of-HasName r a.servers a read named got)

All-Mem :
    (P : ServerMetrics → Type 0) (metrics : List ServerMetrics) {m : ServerMetrics}
    → All P metrics
    → Memᴰ m metrics
    → P m
All-Mem P [] h at = elim at [ ]
All-Mem P (x ∷ metrics) h (Memᴰ.head e) = rw e h.0
All-Mem P (x ∷ metrics) h (Memᴰ.tail t) = All-Mem P metrics h.1 t

or_no_server-named :
    (sid : String) (a : App)
    → sid ≢ ""
    → (or_no_server (some sid) a).0 ≡ fails (not_retryable no_server)
    → ⊥
or_no_server-named sid a named e = by_name (string_same sid "") e
  where
    by_name :
        (same : Dec (sid ≡ ""))
        → (ite same (fail (not_retryable no_server)) (pure sid) a).0
          ≡ fails (not_retryable no_server)
        → ⊥
    by_name (yes p) e' = named p
    by_name (no n) e' = absurd (cc)

-- A strategy that keeps the contract misses no server that is online.
select_server-candidate :
    (hash : String → ℕ) (metrics : List ServerMetrics) (k : ℕ) (a : App)
    → IsValid a.strategy
    → All (λ m. m.server_id ≢ "") metrics
    → (select_server hash metrics k a).0 ≡ fails (not_retryable no_server)
    → (m : ServerMetrics) → IsCandidate m metrics
    → ⊥
unfolding select_server
select_server-candidate hash metrics k a v named e n h =
    let key = some (str_append "seat-" (str k)) in
    let (m, chosen, at) = (select-Contract hash).selects metrics key a.strategy n v h in
    or_no_server-named m.server_id
      (record a { strategy = (Routing.select hash metrics key a.strategy).1 })
      (All-Mem (λ m. m.server_id ≢ "") metrics named at.0) (rw chosen at e)

check_seat_app : (k : ℕ) (a : App) → (check_seat k a).1 ≡ a
unfolding check_seat
check_seat_app k a = by_seat (lookup k a.desk.seats)
  where
    by_state : (seat : Seat) (s : SeatStatus) → seat.state ≡ s → (check_state k (some seat) a).1 ≡ a
    by_state seat available is = rw (is, check_state) refl
    by_state seat locked is = rw (is, check_state) refl
    by_state seat reserved is = rw (is, check_state) refl

    by_seat : (o : Option Seat) → (check_state k o a).1 ≡ a
    by_seat none = refl
    by_seat (some seat) = by_state seat seat.state refl

-- The metrics that the booking reads show no server that is online.
abbrev pub AreDown : BookReadings → App → Type 0
AreDown r a =
    (metrics : List ServerMetrics) × ((current_metrics r.metrics a).0 ≡ done metrics)
    × ((m : ServerMetrics) → IsCandidate m metrics → ⊥)

from_check-AreDown :
    (hash : String → ℕ) (r : BookReadings) (k : ℕ) (requester : String) (a : App)
    → IsValid a.strategy
    → AreNamed a.servers
    → ((current_metrics r.metrics >>= from_metrics r k requester hash) a).0
      ≡ fails (not_retryable no_server)
    → AreDown r a
from_check-AreDown hash r k requester a v named e =
    elim (bind_fails (current_metrics r.metrics) (from_metrics r k requester hash) a e) [
      | inl unread ↦ absurd (current_metrics-Finds r.metrics a unread)
      | inr (metrics, read, e') ↦
          let a' = (current_metrics r.metrics a).1 in
          elim (bind_fails (select_server hash metrics k) (from_selected r k requester metrics) a'
            e') [
              | inl unserved ↦ (
                metrics,
                read,
                select_server-candidate hash metrics k a' ((current_metrics-Keeps r.metrics a).2 v)
                    (current_metrics-HasName r.metrics a metrics named read) unserved,
              )
              | inr (chosen, _, e'') ↦
                  absurd (from_selected-Finds r k requester metrics chosen _ e'')
            ]
    ]

-- A booking fails for want of a server only when none is online: in every app that calls can lead
-- to, whichever strategy is in use, if no server has the empty name, a booking that finds no
-- server has read metrics of its servers that show none online.
pub book_locked-AreDown :
    (hash : String → ℕ) (r : BookReadings) (k : ℕ) (requester : String) (a : App)
    → Reach hash a
    → AreNamed a.servers
    → (book_locked hash r k requester a).0 ≡ fails (not_retryable no_server)
    → AreDown r (begin_booking r a).1
unfolding book_locked
book_locked-AreDown hash r k requester a reached named e =
    let a₀ = (begin_booking r a).1 in
    elim (bind_fails (check_seat k)
      (λ _. (current_metrics r.metrics >>= from_metrics r k requester hash)) a₀ e) [
        | inl unfit ↦ absurd (check_seat-Finds k a₀ unfit)
        | inr (u, _, e₁) ↦
            from_check-AreDown hash r k requester a₀ (Reach-IsValid reached) named
              (rw (check_seat_app k a₀) at e₁)
      ]
