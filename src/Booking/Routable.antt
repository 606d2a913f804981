-- ===== src/Booking/Routable.antt =====
-- The strategy in use stays one that keeps the contract of a strategy, whatever is called.
use distributed_tickit_syste.Common.{
  ℕ, ◌≡◌, refl, sym, inl, inr, ◌⊎◌, String, Bool, true, false, List, if◌then◌else◌, nat_key,
  string_key,
}
use mathlib.Core.Path.{subst}
use distributed_tickit_syste.Common.Dict.{lookup}
use distributed_tickit_syste.Locking.{Lease, Result, ok, raise}
use distributed_tickit_syste.Circuit.Breaker
use distributed_tickit_syste.Circuit.Breaker.{Breaker}
use distributed_tickit_syste.Sync.SeatState
use distributed_tickit_syste.Balancer.Metrics.{ServerMetrics}
use distributed_tickit_syste.Booking.Desk.{Desk, lease_seat}
use distributed_tickit_syste.Booking.Routing.{name_of, by_rotation}
use distributed_tickit_syste.Booking.Choice.{IsValid, strategy_for-IsValid}
use distributed_tickit_syste.Booking.App.{
  App, Action, Reply, done, fails, fail, ◌>>=◌, BookingError, breaker_of, put_breaker, transient,
  current_metrics, simulated_failure, server_offline, or_key_error,
}
use distributed_tickit_syste.Booking.Book.{
  BookReadings, begin_booking, check_seat, select_server, select_circuit_safe_server, take_lease,
  fail_offline, reserve_on_server, as_function, guarded, settle_booking, call_breaker,
  count_success, book_locked,
}
use distributed_tickit_syste.Booking.Methods
use distributed_tickit_syste.Booking.Init.{init, before_synchronization}
use distributed_tickit_syste.Booking.Steps.{
  bind_ends, or_key_error-Keeps, check_seat-Keeps, current_metrics-Keeps, select_server-Keeps,
  select_circuit_safe_server-Keeps, outer-replicate, from_routed, from_selected, from_metrics,
  from_check,
}
use distributed_tickit_syste.Booking.Outcomes.{call_ends}
use distributed_tickit_syste.Booking.Untouched.{
  strategies, outer-confirm_seat, outer-cancel_lock, outer-renew_lease, outer-deliver,
  outer-toggle_server, snapshot-IsValid,
}
use distributed_tickit_syste.Booking.Trace.{
  Call, book, confirm, cancel, renew, reset, set_strategy, toggle, deliver, snapshot, after,
}
use distributed_tickit_syste.Booking.Reach.{Reach, start, next, outer-record_initial_heartbeats}

-- The action leaves a strategy that keeps the contract.
abbrev KeepsValid : {A : Type 0} → Action A → Type 0
KeepsValid m = (a : App) → IsValid a.strategy → IsValid (m a).1.strategy

bind-KeepsValid :
    {A B : Type 0} (m : Action A) (f : A → Action B)
    → KeepsValid m
    → ((x : A) → KeepsValid (f x))
    → KeepsValid (m >>= f)
bind-KeepsValid m f km kf a v =
    bind_ends (λ result. IsValid result.1.strategy) m f a (λ e _. km a v)
      (λ x _. kf x (m a).1 (km a v))

take_lease-strategy :
    (r : BookReadings) (k : ℕ) (requester server_id : String) (a : App)
    → (take_lease r k requester server_id a).1.strategy ≡ a.strategy
unfolding take_lease
take_lease-strategy r k requester server_id a = by_result whole.0 refl
  where
    whole : Result Lease × Desk
    whole = lease_seat r.uuid r.lease_now r.lease_later k requester server_id a.desk

    by_result :
        (result : Result Lease)
        → whole.0 ≡ result
        → (take_lease r k requester server_id a).1.strategy ≡ a.strategy
    by_result (ok lease) e =
        rw (e, take_lease)
          (strategies (
            outer-replicate r.stamp r.delays k SeatState.locked requester
              (record a { desk = whole.1 })))
    by_result (raise err) e = rw (e, take_lease) refl

reserve_on_server-KeepsValid :
    (r : BookReadings) (k : ℕ) (requester server_id : String)
    → KeepsValid (reserve_on_server r k requester server_id)
unfolding reserve_on_server
reserve_on_server-KeepsValid r k requester server_id =
    bind-KeepsValid (λ a. or_key_error server_id (lookup server_id a.servers) a)
      (λ server.
        if server.online
        then (if r.draw_fails
            then fail (transient (simulated_failure server_id))
            else take_lease r k requester server_id)
        else fail_offline r server_id)
      (λ a v. (or_key_error-Keeps server_id (lookup server_id a.servers) a).2 v)
      (λ server. by_state server.online r.draw_fails)
  where
    by_state :
        (on drawn : Bool)
        → KeepsValid (
            if on
            then (if drawn
                then fail (transient (simulated_failure server_id))
                else take_lease r k requester server_id)
            else fail_offline r server_id)
    by_state false drawn =
        bind-KeepsValid (breaker_of server_id)
          (λ b a. (
            fails (transient (server_offline server_id)),
            put_breaker server_id (Breaker.record_failure r.offline_failure b) a,
          ))
          (λ a v. (or_key_error-Keeps server_id (lookup server_id a.breakers) a).2 v) (λ b a v. v)
    by_state true true = λ a v. v
    by_state true false = λ a v. rw (take_lease-strategy r k requester server_id a) v

abbrev app_of : App ⊎ (BookingError × App) → App
app_of (inl a) = a
app_of (inr (e, a)) = a

-- A guarded call leaves such a strategy if the function does.
call_breaker-KeepsValid :
    (r : BookReadings) (server_id : String) (m : Action (Unit {0}))
    → KeepsValid m
    → KeepsValid (call_breaker r server_id m)
unfolding call_breaker
call_breaker-KeepsValid r server_id m km =
    bind-KeepsValid (breaker_of server_id)
      (λ b a.
        settle_booking server_id a (Breaker.call r.call_at r.call_after (guarded server_id m a) b))
      (λ a v. (or_key_error-Keeps server_id (lookup server_id a.breakers) a).2 v) by_outcome
  where
    left :
        (result : Reply (Unit {0}) × App)
        → IsValid result.1.strategy
        → (x : App ⊎ (BookingError × App)) → as_function result ≡ x
        → IsValid (app_of x).strategy
    left (done u, a) v x e = rw (sym e) v
    left (fails err, a) v x e = rw (sym e) v

    by_outcome :
        (b : Breaker)
        → KeepsValid (λ a.
          settle_booking server_id a
            (Breaker.call r.call_at r.call_after (guarded server_id m a) b))
    by_outcome b a v =
        call_ends
          (λ out. (b'' : Breaker) → IsValid (settle_booking server_id a (out, b'')).1.strategy)
          r.call_at r.call_after (guarded server_id m a) b (λ b''. v)
          (λ b' x e b''.
            left (m (put_breaker server_id b' a)) (km (put_breaker server_id b' a) v) (inl x) e)
          (λ b' x e b''.
            left (m (put_breaker server_id b' a)) (km (put_breaker server_id b' a) v) (inr x) e)
          (Breaker.call r.call_at r.call_after (guarded server_id m a) b).1

book_locked-IsValid :
    (hash : String → ℕ) (r : BookReadings) (k : ℕ) (requester : String)
    → KeepsValid (book_locked hash r k requester)
unfolding book_locked count_success
book_locked-IsValid hash r k requester a = checked (begin_booking r a).1
  where
    routed : (selected : String) → KeepsValid (from_routed r k requester selected)
    routed selected =
        let reserve = reserve_on_server r k requester selected in
        bind-KeepsValid (call_breaker r selected reserve) (λ _. count_success r.routed_at selected)
          (call_breaker-KeepsValid r selected reserve
            (reserve_on_server-KeepsValid r k requester selected))
          (λ _ a' v. v)

    selected_from :
        (metrics : List ServerMetrics) (chosen : String)
        → KeepsValid (from_selected r k requester metrics chosen)
    selected_from metrics chosen =
        bind-KeepsValid (select_circuit_safe_server r chosen metrics) (from_routed r k requester)
          (λ a' v. (select_circuit_safe_server-Keeps r chosen metrics a').2 v) routed

    chosen_from :
        (metrics : List ServerMetrics) → KeepsValid (from_metrics r k requester hash metrics)
    chosen_from metrics =
        bind-KeepsValid (select_server hash metrics k) (from_selected r k requester metrics)
          (λ a' v. (select_server-Keeps hash metrics k a').2 v) (selected_from metrics)

    checked : KeepsValid (from_check r k requester hash)
    checked =
        bind-KeepsValid (check_seat k)
          (λ _. (current_metrics r.metrics >>= from_metrics r k requester hash))
          (λ a' v. (check_seat-Keeps k a').2 v)
          (λ _.
            bind-KeepsValid (current_metrics r.metrics) (from_metrics r k requester hash)
              (λ a' v. (current_metrics-Keeps r.metrics a').2 v) chosen_from)

after-IsValid :
    (hash : String → ℕ) (call : Call) (a : App)
    → IsValid a.strategy
    → IsValid (after hash call a).strategy
unfolding after Methods.reset Methods.initialize_synchronization Methods.set_strategy
after-IsValid hash (book r k requester) a v = book_locked-IsValid hash r k requester a v
after-IsValid hash (confirm now stamp delays k) a v =
    rw (strategies (outer-confirm_seat now stamp delays k a)) v
after-IsValid hash (cancel k) a v = rw (strategies (outer-cancel_lock k a)) v
after-IsValid hash (renew now later asked k) a v =
    rw (strategies (outer-renew_lease now later asked k a)) v
after-IsValid hash (reset stamps) a v = v
after-IsValid hash (set_strategy name) a v = strategy_for-IsValid (name_of name)
after-IsValid hash (toggle r sid) a v = rw (strategies (outer-toggle_server r sid a)) v
after-IsValid hash (deliver timer) a v = rw (strategies (outer-deliver timer a)) v
after-IsValid hash (snapshot r) a v = snapshot-IsValid r a v

-- Whatever calls were made, the strategy in use keeps the contract of a strategy: the weights count
-- every server, and the ring has virtual nodes.
pub Reach-IsValid : {hash : String → ℕ} {a : App} → Reach hash a → IsValid a.strategy
unfolding init Methods.initialize_synchronization
Reach-IsValid (start r) =
    let same = strategies (
      outer-record_initial_heartbeats r Methods.server_ids
        (Methods.initialize_synchronization r.stamps (before_synchronization r))) in
    subst IsValid (sym same) (strategy_for-IsValid by_rotation)
Reach-IsValid {hash} (next {a} call reached fresh) =
    after-IsValid hash call a (Reach-IsValid reached)
