-- ===== src/Booking/Outcomes.antt =====
-- How a booking ends: with a lease and a locked seat, or with the seats as they were.
use distributed_tickit_syste.Common.{
  ℕ, ◌≡◌, refl, ◌∙◌, ap, sym, ◌⊎◌, inl, inr, String, Bool, true, false, Option, none, some, List,
  if◌then◌else◌, nat_key, string_key, Option-cases,
}
use distributed_tickit_syste.Common.Dict.{lookup}
use distributed_tickit_syste.Locking.{Lease, LeaseError, Result, ok, raise}
use distributed_tickit_syste.Circuit.StateMachine.{Outcome, returned, raised, circuit_open}
use distributed_tickit_syste.Circuit.Breaker
use distributed_tickit_syste.Circuit.Breaker.{Breaker, Readings}
use distributed_tickit_syste.Sync.SeatState
use distributed_tickit_syste.Balancer.Metrics.{ServerMetrics}
use distributed_tickit_syste.Booking.Desk.{
  Seat, Desk, SeatStatus, available, locked, reserved, expire_leases_locked, lease_seat,
}
use distributed_tickit_syste.Booking.App.{
  App, Server, Action, Reply, done, fails, fail, ◌>>=◌, BookingError, breaker_of, put_breaker,
  transient, current_metrics, simulated_failure, server_offline,
}
use distributed_tickit_syste.Booking.Book.{
  BookReadings, begin_booking, check_state, check_seat, select_server, select_circuit_safe_server,
  take_lease, fail_offline, reserve_on_server, as_function, guarded, settle_booking, call_breaker,
  count_success, book_locked,
}
use distributed_tickit_syste.Booking.Steps.{
  from_selected, from_metrics, from_check, from_routed, bind_ends, or_key_error-Keeps,
  check_seat-Keeps, current_metrics-Keeps, select_server-Keeps, select_circuit_safe_server-Keeps,
  outer-replicate,
}

-- What a guarded function gives, `call` returns or raises, unless the circuit is open.
pub call_ends :
    {A E : Type 0} (R : Outcome A E → Type 0) (now : ℕ) (r : Readings)
    (fn : Breaker → (A ⊎ E) × Breaker) (b : Breaker)
    → R circuit_open
    → ((b' : Breaker) (x : A) → (fn b').0 ≡ inl x → R (returned x))
    → ((b' : Breaker) (e : E) → (fn b').0 ≡ inr e → R (raised e))
    → R (Breaker.call now r fn b).0
unfolding Breaker.call
call_ends {A} {E} R now r fn b rejected gave threw =
    by_allowed (Breaker.allow_request now b).0 (fn (Breaker.allow_request now b).1).0 refl
  where
    b' : Breaker
    b' = (Breaker.allow_request now b).1

    by_allowed :
        (allowed : Bool) (result : A ⊎ E)
        → (fn b').0 ≡ result
        → R (if allowed then Breaker.settle r result (fn b').1 else (circuit_open, b')).0
    by_allowed true (inl x) e = gave b' x e
    by_allowed true (inr err) e = threw b' err e
    by_allowed false result e = rejected

check_state-available :
    (k : ℕ) (o : Option Seat) (a : App)
    → (check_state k o a).0 ≡ done tt
    → (seat : Seat) × (o ≡ some seat) × (seat.state ≡ available)
check_state-available k none a e = absurd (cc)
check_state-available k (some seat) a e = by_state seat.state refl
  where
    by_state :
        (s : SeatStatus)
        → seat.state ≡ s
        → (seat' : Seat) × (some seat ≡ some seat') × (seat'.state ≡ available)
    by_state available is = (seat, refl, is)
    by_state locked is = absurd (cc)
    by_state reserved is = absurd (cc)

abbrev app_of : App ⊎ (BookingError × App) → App
app_of (inl a) = a
app_of (inr (e, a)) = a

module _ (r : BookReadings) (k : ℕ) (requester : String) (d : Desk) where
  -- What `_reserve_on_server` does to the seats and leases `d` through a server.
  abbrev pub tried : String → Result Lease × Desk
  tried server_id = lease_seat r.uuid r.lease_now r.lease_later k requester server_id d

  abbrev pub Leased : String → Desk → Type 0
  Leased server_id d' =
      (lease : Lease) × ((tried server_id).0 ≡ ok lease) × (d' ≡ (tried server_id).1)

  -- The try failed before the lease was asked for, or because it was refused.
  abbrev pub Refused : String → Desk → Type 0
  Refused server_id d' =
      (d' ≡ d) ⊎ ((e : LeaseError) × ((tried server_id).0 ≡ raise e) × (d' ≡ (tried server_id).1))

  abbrev pub Tried : {A : Type 0} → String → Reply A × App → Type 0
  Tried server_id (done x, a) = Leased server_id a.desk
  Tried server_id (fails e, a) = Refused server_id a.desk

  take_lease-Tried :
      (server_id : String) (a : App)
      → a.desk ≡ d
      → Tried server_id (take_lease r k requester server_id a)
  unfolding take_lease
  take_lease-Tried server_id a same = by_result whole.0 refl
    where
      whole : Result Lease × Desk
      whole = lease_seat r.uuid r.lease_now r.lease_later k requester server_id a.desk

      moved : whole ≡ tried server_id
      moved = ap (λ d'. lease_seat r.uuid r.lease_now r.lease_later k requester server_id d') same

      by_result :
          (result : Result Lease)
          → whole.0 ≡ result
          → Tried server_id (take_lease r k requester server_id a)
      by_result (ok lease) e =
          rw (e, take_lease)
            (
              lease,
              sym (ap (λ w. w.0) moved) ∙ e,
              ap (λ o. o.0)
                    (outer-replicate r.stamp r.delays k SeatState.locked requester
                      (record a { desk = whole.1 }))
                  ∙ ap (λ w. w.1) moved,
            )
      by_result (raise err) e =
          rw (e, take_lease) (inr (err, sym (ap (λ w. w.0) moved) ∙ e, ap (λ w. w.1) moved))

  fail_offline-Tried :
      (server_id : String) (a : App) → a.desk ≡ d → Tried server_id (fail_offline r server_id a)
  fail_offline-Tried server_id a same =
      let found = (or_key_error-Keeps server_id (lookup server_id a.breakers) a).0 in
      bind_ends (Tried server_id) (breaker_of server_id)
        (λ b a'. (
          fails (transient (server_offline server_id)),
          put_breaker server_id (Breaker.record_failure r.offline_failure b) a',
        ))
        a (λ e _. inl (found ∙ same)) (λ b _. inl (found ∙ same))

  reserve_on_server-Tried :
      (server_id : String) (a : App)
      → a.desk ≡ d
      → Tried server_id (reserve_on_server r k requester server_id a)
  unfolding reserve_on_server
  reserve_on_server-Tried server_id a same = elim (Option-cases (lookup server_id a.servers)) [
    | inl missing ↦ rw (missing, reserve_on_server) (inl same)
    | inr (server, e) ↦
        rw (e, reserve_on_server) (by_state server server.online r.draw_fails refl refl)
  ]
    where
      by_state :
          (server : Server) (on drawn : Bool)
          → server.online ≡ on
          → r.draw_fails ≡ drawn
          → Tried server_id (
              (if server.online
                  then (if r.draw_fails
                      then fail (transient (simulated_failure server_id))
                      else take_lease r k requester server_id)
                  else fail_offline r server_id)
                a)
      by_state server false drawn e e' = rw e (fail_offline-Tried server_id a same)
      by_state server true true e e' = rw (e, e') (inl same)
      by_state server true false e e' = rw (e, e') (take_lease-Tried server_id a same)

  Refused-moved :
      (server_id : String) (d' d'' : Desk) → d' ≡ d'' → Refused server_id d' → Refused server_id d''
  Refused-moved server_id d' d'' same (inl e) = inl (sym same ∙ e)
  Refused-moved server_id d' d'' same (inr (err, e, moved)) = inr (err, e, sym same ∙ moved)

  gave :
      (server_id : String) (result : Reply (Unit {0}) × App) (x : App)
      → as_function result ≡ inl x
      → Tried server_id result
      → Leased server_id x.desk
  gave server_id (done u, a) x e (lease, got, moved) =
      (lease, got, sym (ap (λ f. (app_of f).desk) e) ∙ moved)
  gave server_id (fails err, a) x e t = absurd (cc)

  threw :
      (server_id : String) (result : Reply (Unit {0}) × App) (x : BookingError × App)
      → as_function result ≡ inr x
      → Tried server_id result
      → Refused server_id x.1.desk
  threw server_id (done u, a) x e t = absurd (cc)
  threw server_id (fails err, a) x e t =
      Refused-moved server_id a.desk x.1.desk (ap (λ f. (app_of f).desk) e) t

  call_breaker-Tried :
      (server_id : String) (a : App)
      → a.desk ≡ d
      → Tried server_id (call_breaker r server_id (reserve_on_server r k requester server_id) a)
  unfolding call_breaker
  call_breaker-Tried server_id a same =
      bind_ends (Tried server_id) (breaker_of server_id)
        (λ b a'.
          settle_booking server_id a'
            (Breaker.call r.call_at r.call_after (guarded server_id step a') b))
        a (λ e _. inl (found ∙ same))
        (λ b _. by_outcome b (breaker_of server_id a).1 (found ∙ same))
    where
      found : (breaker_of server_id a).1.desk ≡ a.desk
      found = (or_key_error-Keeps server_id (lookup server_id a.breakers) a).0

      step : Action (Unit {0})
      step = reserve_on_server r k requester server_id

      by_outcome :
          (b : Breaker) (a' : App)
          → a'.desk ≡ d
          → Tried server_id (
              settle_booking server_id a'
                (Breaker.call r.call_at r.call_after (guarded server_id step a') b))
      by_outcome b a' same' =
          call_ends
            (λ out. (b'' : Breaker) → Tried server_id (settle_booking server_id a' (out, b'')))
            r.call_at r.call_after (guarded server_id step a') b (λ b''. inl same')
            (λ b' x e b''.
              gave server_id (step (put_breaker server_id b' a')) x e
                (reserve_on_server-Tried server_id (put_breaker server_id b' a') same'))
            (λ b' x e b''.
              threw server_id (step (put_breaker server_id b' a')) x e
                (reserve_on_server-Tried server_id (put_breaker server_id b' a') same'))
            (Breaker.call r.call_at r.call_after (guarded server_id step a') b).1

  -- The seat can be booked.
  abbrev pub IsFree : Type 0
  IsFree = (seat : Seat) × (lookup k d.seats ≡ some seat) × (seat.state ≡ available)

  -- How a booking ends that finds the seats and leases `d`.
  abbrev pub Booked : Reply String × App → Type 0
  Booked (done server_id, a) = IsFree × Leased server_id a.desk
  Booked (fails e, a) = (server_id : String) × Refused server_id a.desk

  check_seat-IsFree : (a : App) → a.desk ≡ d → (check_seat k a).0 ≡ done tt → IsFree
  unfolding check_seat
  check_seat-IsFree a same e =
      let (seat, at, state) = check_state-available k (lookup k a.desk.seats) a e in
      (seat, ap (λ d'. lookup k d'.seats) (sym same) ∙ at, state)

  count_success-Booked :
      (server_id : String) (a : App)
      → IsFree
      → Leased server_id a.desk
      → Booked (count_success r.routed_at server_id a)
  unfolding count_success
  count_success-Booked server_id a free t = (free, t)

  reserved-Booked :
      (server_id : String) (a : App)
      → a.desk ≡ d
      → IsFree
      → Booked (
          (call_breaker r server_id (reserve_on_server r k requester server_id) >>= λ _.
          count_success r.routed_at server_id)
            a)
  reserved-Booked server_id a same free =
      by_reply (call_breaker r server_id (reserve_on_server r k requester server_id) a) refl
        (call_breaker-Tried server_id a same)
    where
      by_reply :
          (result : Reply (Unit {0}) × App)
          → result ≡ call_breaker r server_id (reserve_on_server r k requester server_id) a
          → Tried server_id result
          → Booked (elim result.0 as (λ _. Reply String × App) [
            | done u ↦ count_success r.routed_at server_id result.1
            | fails e ↦ (fails e, result.1)
          ])
      by_reply (done u, a') e t = count_success-Booked server_id a' free t
      by_reply (fails err, a') e t = (server_id, t)

  module _ (hash : String → ℕ) where
    from_selected-Booked :
        (metrics : List ServerMetrics) (chosen : String) (a : App)
        → a.desk ≡ d
        → IsFree
        → Booked (from_selected r k requester metrics chosen a)
    from_selected-Booked metrics chosen a same free =
        let kept = (select_circuit_safe_server-Keeps r chosen metrics a).0 ∙ same in
        bind_ends Booked (select_circuit_safe_server r chosen metrics) (from_routed r k requester) a
          (λ e _. (chosen, inl kept)) (λ selected _. reserved-Booked selected _ kept free)

    from_metrics-Booked :
        (metrics : List ServerMetrics) (a : App)
        → a.desk ≡ d
        → IsFree
        → Booked (from_metrics r k requester hash metrics a)
    from_metrics-Booked metrics a same free =
        let kept = (select_server-Keeps hash metrics k a).0 ∙ same in
        bind_ends Booked (select_server hash metrics k) (from_selected r k requester metrics) a
          (λ e _. ("", inl kept)) (λ chosen _. from_selected-Booked metrics chosen _ kept free)

    from_check-Booked : (a : App) → a.desk ≡ d → Booked (from_check r k requester hash a)
    from_check-Booked a same =
        let kept = (check_seat-Keeps k a).0 ∙ same in
        bind_ends Booked (check_seat k)
          (λ _. (current_metrics r.metrics >>= λ metrics. from_metrics r k requester hash metrics))
          a (λ e _. ("", inl kept))
          (λ u e. after_check (check_seat k a).1 kept (check_seat-IsFree a same e))
      where
        after_check :
            (a' : App)
            → a'.desk ≡ d
            → IsFree
            → Booked (
                (current_metrics r.metrics >>= λ metrics. from_metrics r k requester hash metrics)
                  a')
        after_check a' same' free =
            let kept = (current_metrics-Keeps r.metrics a').0 ∙ same' in
            bind_ends Booked (current_metrics r.metrics)
              (λ metrics. from_metrics r k requester hash metrics) a' (λ e _. ("", inl kept))
              (λ metrics _. from_metrics-Booked metrics _ kept free)

-- A booking begins with the expiry. If it succeeds, the seat was available, and the desk is as the
-- lease through the server that it reports leaves it; if it fails, the desk is as it was, or as a
-- refused lease leaves it.
pub book_locked_lem :
    (hash : String → ℕ) (r : BookReadings) (k : ℕ) (requester : String) (a : App)
    → Booked r k requester
        (expire_leases_locked r.expired_at a.desk)
        (book_locked hash r k requester a)
unfolding book_locked
book_locked_lem hash r k requester a =
    from_check-Booked r k requester (expire_leases_locked r.expired_at a.desk) hash
      (begin_booking r a).1 refl
