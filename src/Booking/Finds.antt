-- ===== src/Booking/Finds.antt =====
-- No step of a booking but the choice of a server fails for want of a server.
use distributed_tickit_syste.Common.{
  ℕ, ◌≡◌, refl, inl, inr, String, Bool, true, false, Option, none, some, List, [], ◌∷◌,
  if◌then◌else◌, Option-cases, nat_key, string_key,
}
use distributed_tickit_syste.Common.Dict.{Dict, lookup}
use distributed_tickit_syste.Circuit.StateMachine.{Outcome, returned, raised, circuit_open}
use distributed_tickit_syste.Circuit.Breaker
use distributed_tickit_syste.Circuit.Breaker.{Breaker}
use distributed_tickit_syste.Balancer.Metrics.{ServerMetrics}
use distributed_tickit_syste.Failover.Manager.{choose_failover_target}
use distributed_tickit_syste.Booking.Desk.{Seat, SeatStatus, available, locked, reserved}
use distributed_tickit_syste.Booking.App.{
  App, Server, Action, fails, fail, pure, ◌>>=◌, BookingError, breaker_of, or_key_error, transient,
  not_retryable, lease_conflict, key_error, no_server, circuit_is_open, current_metrics,
  MetricReadings, metric_of, metrics_of, ingested,
}
use distributed_tickit_syste.Booking.Book.{
  BookReadings, check_state, check_seat, allow_request, redirect, other_target,
  select_circuit_safe_server, reserve_on_server, guarded, translate, settle_booking, call_breaker,
  count_success,
}
use distributed_tickit_syste.Booking.Steps.{bind_fails, from_routed, from_selected}

-- The action does not fail for want of a server.
abbrev pub Finds : {A : Type 0} → Action A → Type 0
Finds m = (a : App) → (m a).0 ≡ fails (not_retryable no_server) → ⊥

bind-Finds :
    {A B : Type 0} (m : Action A) (f : A → Action B)
    → Finds m
    → ((x : A) → Finds (f x))
    → Finds (m >>= f)
bind-Finds m f fm ff a e = elim (bind_fails m f a e) [
  | inl first ↦ fm a first
  | inr (x, _, rest) ↦ ff x (m a).1 rest
]

or_key_error-Finds : {V : Type 0} (key : String) (o : Option V) → Finds (or_key_error key o)
or_key_error-Finds key none a e = absurd (cc)
or_key_error-Finds key (some x) a e = absurd (cc)

pub check_seat-Finds : (k : ℕ) → Finds (check_seat k)
unfolding check_seat
check_seat-Finds k a e = by_seat (lookup k a.desk.seats) e
  where
    by_state :
        (seat : Seat) (s : SeatStatus)
        → seat.state ≡ s
        → (check_state k (some seat) a).0 ≡ fails (not_retryable no_server)
        → ⊥
    by_state seat available is e' = let e'' = rw (is, check_state) at e' in absurd (cc)
    by_state seat locked is e' = let e'' = rw (is, check_state) at e' in absurd (cc)
    by_state seat reserved is e' = let e'' = rw (is, check_state) at e' in absurd (cc)

    by_seat : (o : Option Seat) → (check_state k o a).0 ≡ fails (not_retryable no_server) → ⊥
    by_seat none e' = absurd (cc)
    by_seat (some seat) e' = by_state seat seat.state refl e'

metric_of-Finds :
    (r : MetricReadings) (sid : String) (server : Server) → Finds (metric_of r sid server)
unfolding metric_of
metric_of-Finds r sid server a e = elim (Option-cases (lookup sid a.breakers)) [
  | inl missing ↦ let e' = rw (missing, metric_of) at e in absurd (cc)
  | inr (b, at) ↦ let e' = rw (at, metric_of) at e in absurd (cc)
]

metrics_of-Finds :
    (r : MetricReadings) (servers : Dict String Server) → Finds (metrics_of r servers)
unfolding metrics_of
metrics_of-Finds r [] = λ a e. absurd (cc)
metrics_of-Finds r ((sid, server) ∷ servers) =
    bind-Finds (metric_of r sid server)
      (λ metric. metrics_of r servers >>= λ metrics. pure (metric ∷ metrics))
      (metric_of-Finds r sid server)
      (λ metric.
        bind-Finds (metrics_of r servers) (λ metrics. pure (metric ∷ metrics))
          (metrics_of-Finds r servers) (λ metrics a e. absurd (cc)))

pub current_metrics-Finds : (r : MetricReadings) → Finds (current_metrics r)
unfolding current_metrics
current_metrics-Finds r a =
    bind-Finds (metrics_of r a.servers) ingested (metrics_of-Finds r a.servers)
      (λ metrics a' e. absurd (cc)) a

allow_request-Finds : (now : ℕ) (sid : String) → Finds (allow_request now sid)
unfolding allow_request
allow_request-Finds now sid a e = elim (Option-cases (lookup sid a.breakers)) [
  | inl missing ↦ let e' = rw (missing, allow_request) at e in absurd (cc)
  | inr (b, at) ↦ let e' = rw (at, allow_request) at e in absurd (cc)
]

redirect-Finds :
    (now : ℕ) (selected : String) (target : Option String) → Finds (redirect now selected target)
redirect-Finds now selected none = λ a e. absurd (cc)
redirect-Finds now selected (some target) =
    bind-Finds (allow_request now target)
      (λ allowed. if allowed then pure target else fail (not_retryable (circuit_is_open selected)))
      (allow_request-Finds now target) by_allowed
  where
    by_allowed :
        (allowed : Bool)
        → Finds (if allowed then pure target else fail (not_retryable (circuit_is_open selected)))
    by_allowed true a e = absurd (cc)
    by_allowed false a e = absurd (cc)

select_circuit_safe_server-Finds :
    (r : BookReadings) (selected : String) (metrics : List ServerMetrics)
    → Finds (select_circuit_safe_server r selected metrics)
unfolding select_circuit_safe_server
select_circuit_safe_server-Finds r selected metrics =
    bind-Finds (allow_request r.allowed_at selected)
      (λ allowed. if allowed then pure selected else (λ a'.
        redirect r.target_allowed_at selected
          (other_target selected (choose_failover_target metrics a'.failover_manager)) a'))
      (allow_request-Finds r.allowed_at selected) by_allowed
  where
    by_allowed :
        (allowed : Bool)
        → Finds (
            if allowed then pure selected else (λ a'.
              redirect r.target_allowed_at selected
                (other_target selected (choose_failover_target metrics a'.failover_manager))
                a'))
    by_allowed true a e = absurd (cc)
    by_allowed false a e =
        redirect-Finds r.target_allowed_at selected
          (other_target selected (choose_failover_target metrics a.failover_manager)) a e

-- Whatever a guarded function raises, it is not taken for the want of a server.
translate-Finds : (e : BookingError) → translate e ≡ not_retryable no_server → ⊥
translate-Finds (transient reason) e' = absurd (cc)
translate-Finds (not_retryable reason) e' = absurd (cc)
translate-Finds (lease_conflict err) e' = absurd (cc)
translate-Finds (key_error key) e' = absurd (cc)

call_breaker-Finds :
    (r : BookReadings) (server_id : String) (m : Action (Unit {0}))
    → Finds (call_breaker r server_id m)
unfolding call_breaker
call_breaker-Finds r server_id m =
    bind-Finds (breaker_of server_id)
      (λ b a.
        settle_booking server_id a (Breaker.call r.call_at r.call_after (guarded server_id m a) b))
      (λ a. or_key_error-Finds server_id (lookup server_id a.breakers) a)
      (λ b a. by_outcome a (Breaker.call r.call_at r.call_after (guarded server_id m a) b))
  where
    by_outcome :
        (a : App) (outcome : Outcome App (BookingError × App) × Breaker)
        → (settle_booking server_id a outcome).0 ≡ fails (not_retryable no_server)
        → ⊥
    by_outcome a (returned a', b) e = absurd (cc)
    by_outcome a (raised (err, a'), b) e =
        let same : translate err ≡ not_retryable no_server = cc in translate-Finds err same
    by_outcome a (circuit_open, b) e = absurd (cc)

pub from_selected-Finds :
    (r : BookReadings) (k : ℕ) (requester : String) (metrics : List ServerMetrics) (chosen : String)
    → Finds (from_selected r k requester metrics chosen)
unfolding count_success
from_selected-Finds r k requester metrics chosen =
    bind-Finds (select_circuit_safe_server r chosen metrics) (from_routed r k requester)
      (select_circuit_safe_server-Finds r chosen metrics)
      (λ selected.
        bind-Finds (call_breaker r selected (reserve_on_server r k requester selected))
          (λ _. count_success r.routed_at selected)
          (call_breaker-Finds r selected (reserve_on_server r k requester selected))
          (λ _ a e. absurd (cc)))
