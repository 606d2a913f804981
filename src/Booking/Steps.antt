-- ===== src/Booking/Steps.antt =====
-- The steps of a booking that leave the seats, the leases and the servers alone.
use distributed_tickit_syste.Common.{
  ℕ, ◌≡◌, refl, ◌∙◌, ◌⊎◌, inl, inr, String, Bool, true, false, Option, none, some, List, [], ◌∷◌,
  if◌then◌else◌, ite, string_same, nat_key, string_key, Option-cases,
}
use distributed_tickit_syste.Common.Dict.{Dict, lookup}
use distributed_tickit_syste.Failover.Manager.{choose_failover_target}
use distributed_tickit_syste.Balancer.Metrics.{ServerMetrics}
use distributed_tickit_syste.Booking.Desk.{Seat, Desk, SeatStatus, available, locked, reserved}
use distributed_tickit_syste.Sync.SeatState.{SeatStateType}
use distributed_tickit_syste.Sync.StateStore.{update_seat}
use Prim.Native.String.{◌++◌ as str_append}
use distributed_tickit_syste.Common.Decimal.{str}
use distributed_tickit_syste.Booking.Routing
use distributed_tickit_syste.Booking.Routing.{ActiveStrategy}
use distributed_tickit_syste.Booking.Choice.{IsValid, select-Contract}
use distributed_tickit_syste.Booking.App.{
  App, Server, Action, Reply, done, fails, pure, fail, ◌>>=◌, BookingError, or_key_error,
  MetricReadings, beat, not_retryable, no_server, circuit_is_open, metric_of, metrics_of, ingested,
  current_metrics,
}
use distributed_tickit_syste.Booking.Book.{
  BookReadings, check_state, check_seat, or_no_server, select_server, allow_request, redirect,
  other_target, select_circuit_safe_server, replicate, call_breaker, reserve_on_server,
  count_success,
}

module _ {A B : Type 0} where
  -- A chain ends as its first part fails, or as the rest ends.
  pub bind_ends :
      (R : Reply B × App → Type 0) (m : Action A) (f : A → Action B) (a : App)
      → ((e : BookingError) → (m a).0 ≡ fails e → R (fails e, (m a).1))
      → ((x : A) → (m a).0 ≡ done x → R (f x (m a).1))
      → R ((m >>= f) a)
  bind_ends R m f a failed went_on = by_reply (m a).0 refl
    where
      by_reply : (reply : Reply A) → (m a).0 ≡ reply → R ((m >>= f) a)
      by_reply (done x) e = rw (e, ◌>>=◌) (went_on x e)
      by_reply (fails err) e = rw (e, ◌>>=◌) (failed err e)

module _ {A B : Type 0} (m : Action A) (f : A → Action B) (a : App) where
  -- A chain that returns has returned at each step.
  pub bind_done :
      {y : B} → ((m >>= f) a).0 ≡ done y → (x : A) × ((m a).0 ≡ done x) × ((f x (m a).1).0 ≡ done y)
  bind_done {y} =
      bind_ends
        (λ result. result.0 ≡ done y → (x : A) × ((m a).0 ≡ done x) × ((f x (m a).1).0 ≡ done y)) m
        f a (λ e _ r. absurd (cc)) (λ x e r. (x, e, r))

  -- A chain that raises has raised in its first step, or in the rest after it.
  pub bind_fails :
      {err : BookingError}
      → ((m >>= f) a).0 ≡ fails err
      → ((m a).0 ≡ fails err) ⊎ ((x : A) × ((m a).0 ≡ done x) × ((f x (m a).1).0 ≡ fails err))
  bind_fails {err} =
      bind_ends
        (λ result.
          result.0 ≡ fails err
          → ((m a).0 ≡ fails err) ⊎ ((x : A) × ((m a).0 ≡ done x) × ((f x (m a).1).0 ≡ fails err)))
        m f a (λ e at r. inl (let same : e ≡ err = cc in rw same at at)) (λ x e r. inr (x, e, r))

-- The rest of a booking, from each step on.
module _ (r : BookReadings) (k : ℕ) (requester : String) where
  abbrev pub from_routed : String → Action String
  from_routed selected = call_breaker r selected (reserve_on_server r k requester selected) >>= λ _.
      count_success r.routed_at selected

  abbrev pub from_selected : List ServerMetrics → String → Action String
  from_selected metrics chosen = select_circuit_safe_server r chosen metrics >>= from_routed

  module _ (hash : String → ℕ) where
    abbrev pub from_metrics : List ServerMetrics → Action String
    from_metrics metrics = select_server hash metrics k >>= from_selected metrics

    abbrev pub from_check : Action String
    from_check = check_seat k >>= λ _. (current_metrics r.metrics >>= from_metrics)

-- From the first app to the second neither seats nor leases nor servers have changed, and the
-- strategy has not got into a state in which it may select nothing.
abbrev pub Same : App → App → Type 0
Same a a' =
    (a'.desk ≡ a.desk) × (a'.servers ≡ a.servers) × (IsValid a.strategy → IsValid a'.strategy)

pub Same_trans : (a b c : App) → Same a b → Same b c → Same a c
Same_trans a b c (desk, servers, valid) (desk', servers', valid') =
    (desk' ∙ desk, servers' ∙ servers, λ v. valid' (valid v))

abbrev pub unchanged : (a : App) → Same a a
unchanged a = (refl, refl, λ v. v)

abbrev pub Keeps : {A : Type 0} → Action A → Type 0
Keeps m = (a : App) → Same a (m a).1

pub bind-Keeps :
    {A B : Type 0} (m : Action A) (f : A → Action B)
    → Keeps m
    → ((x : A) → Keeps (f x))
    → Keeps (m >>= f)
bind-Keeps m f km kf a =
    bind_ends (λ result. Same a result.1) m f a (λ e _. km a)
      (λ x _. Same_trans a (m a).1 (f x (m a).1).1 (km a) (kf x (m a).1))

if-Keeps : {A : Type 0} (b : Bool) (m n : Action A) → Keeps m → Keeps n → Keeps (if b then m else n)
if-Keeps true m n km kn = km
if-Keeps false m n km kn = kn

pub or_key_error-Keeps : {V : Type 0} (key : String) (o : Option V) → Keeps (or_key_error key o)
or_key_error-Keeps key none a = unchanged a
or_key_error-Keeps key (some x) a = unchanged a

check_state-Keeps : (k : ℕ) (o : Option Seat) → Keeps (check_state k o)
check_state-Keeps k none a = unchanged a
check_state-Keeps k (some seat) a = by_state seat.state refl
  where
    by_state : (s : SeatStatus) → seat.state ≡ s → Same a (check_state k (some seat) a).1
    by_state available e = rw (e, check_state) (unchanged a)
    by_state locked e = rw (e, check_state) (unchanged a)
    by_state reserved e = rw (e, check_state) (unchanged a)

pub check_seat-Keeps : (k : ℕ) → Keeps (check_seat k)
unfolding check_seat
check_seat-Keeps k a = check_state-Keeps k (lookup k a.desk.seats) a

metric_of-Keeps :
    (r : MetricReadings) (sid : String) (server : Server) → Keeps (metric_of r sid server)
unfolding metric_of
metric_of-Keeps r sid server a = elim (Option-cases (lookup sid a.breakers)) [
  | inl missing ↦ rw (missing, metric_of) (beat_keeps server.online refl)
  | inr (b, e) ↦ rw (e, metric_of) (beat_keeps server.online refl)
]
  where
    beat_keeps : (on : Bool) → server.online ≡ on → Same a (beat r sid server a)
    beat_keeps true e = rw (e, beat) (unchanged a)
    beat_keeps false e = rw (e, beat) (unchanged a)

metrics_of-Keeps :
    (r : MetricReadings) (servers : Dict String Server) → Keeps (metrics_of r servers)
unfolding metrics_of
metrics_of-Keeps r [] = unchanged
metrics_of-Keeps r ((sid, server) ∷ servers) =
    bind-Keeps (metric_of r sid server)
      (λ metric. metrics_of r servers >>= λ metrics. pure (metric ∷ metrics))
      (metric_of-Keeps r sid server)
      (λ metric.
        bind-Keeps (metrics_of r servers) (λ metrics. pure (metric ∷ metrics))
          (metrics_of-Keeps r servers) (λ metrics a. unchanged a))

pub current_metrics-Keeps : (r : MetricReadings) → Keeps (current_metrics r)
unfolding current_metrics
current_metrics-Keeps r a =
    bind-Keeps (metrics_of r a.servers) ingested (metrics_of-Keeps r a.servers)
      (λ metrics a. unchanged a) a

or_no_server-Keeps : (o : Option String) → Keeps (or_no_server o)
or_no_server-Keeps none a = unchanged a
or_no_server-Keeps (some sid) a =
    elim (string_same sid "")
      as (λ same. Same a (ite same (fail (not_retryable no_server)) (pure sid) a).1) [
        | yes e ↦ unchanged a
        | no n ↦ unchanged a
      ]

pub select_server-Keeps :
    (hash : String → ℕ) (metrics : List ServerMetrics) (k : ℕ)
    → Keeps (select_server hash metrics k)
unfolding select_server
select_server-Keeps hash metrics k a =
    let key = some (str_append "seat-" (str k)) in
    let chosen = Routing.select hash metrics key a.strategy in
    let (desk, servers, valid) = or_no_server-Keeps chosen.0 (record a { strategy = chosen.1 }) in
    (desk, servers, λ v. valid ((select-Contract hash).keeps metrics key a.strategy v))

allow_request-Keeps : (now : ℕ) (sid : String) → Keeps (allow_request now sid)
unfolding allow_request
allow_request-Keeps now sid a = elim (Option-cases (lookup sid a.breakers)) [
  | inl missing ↦ rw (missing, allow_request) (unchanged a)
  | inr (b, e) ↦ rw (e, allow_request) (unchanged a)
]

redirect-Keeps :
    (now : ℕ) (selected : String) (target : Option String) → Keeps (redirect now selected target)
redirect-Keeps now selected none = unchanged
redirect-Keeps now selected (some target) =
    bind-Keeps (allow_request now target)
      (λ allowed. if allowed then pure target else fail (not_retryable (circuit_is_open selected)))
      (allow_request-Keeps now target)
      (λ allowed.
        if-Keeps allowed (pure target) (fail (not_retryable (circuit_is_open selected))) (unchanged)
          (unchanged))

pub select_circuit_safe_server-Keeps :
    (r : BookReadings) (selected : String) (metrics : List ServerMetrics)
    → Keeps (select_circuit_safe_server r selected metrics)
unfolding select_circuit_safe_server
select_circuit_safe_server-Keeps r selected metrics =
    bind-Keeps (allow_request r.allowed_at selected)
      (λ allowed. if allowed then pure selected else (λ a'.
        redirect r.target_allowed_at selected
          (other_target selected (choose_failover_target metrics a'.failover_manager)) a'))
      (allow_request-Keeps r.allowed_at selected) by_reply
  where
    by_reply :
        (allowed : Bool) (a : App)
        → Same a
            ((if allowed then pure selected else (λ a'.
                redirect r.target_allowed_at selected
                  (other_target selected (choose_failover_target metrics a'.failover_manager))
                  a'))
              a).1
    by_reply true a = unchanged a
    by_reply false a =
        redirect-Keeps r.target_allowed_at selected
          (other_target selected (choose_failover_target metrics a.failover_manager)) a

-- What a change of the stores leaves alone.
abbrev pub outer : App → Desk × ActiveStrategy
outer a = (a.desk, a.strategy)

pub outer-replicate :
    (stamp : String) (delays : String → ℕ) (k : ℕ) (state : SeatStateType) (owner : String)
    (a : App)
    → outer (replicate stamp delays k state owner a) ≡ outer a
unfolding replicate
outer-replicate stamp delays k state owner a =
    elim (Option-cases (lookup "Server 1" a.replicators)) [
      | inl missing ↦ rw (missing, replicate) refl
      | inr (primary, e) ↦
          elim (Option-cases (update_seat k state owner stamp primary.local_store).0) [
            | inl none_there ↦ rw (e, replicate, none_there) refl
            | inr (seat, there) ↦ rw (e, replicate, there) refl
          ]
    ]
