-- ===== src/Booking/Routed.antt =====
-- Which server a booking goes through, and when there is none for it.
use distributed_tickit_syste.Common.{
  ℕ, ◌≡◌, refl, ◌∙◌, inl, inr, String, Bool, true, false, Option, none, some, if◌then◌else◌,
  Option-cases, nat_key, string_key,
}
use mathlib.Core.Path.{subst}
use distributed_tickit_syste.Common.Dict.{Dict, lookup}
use distributed_tickit_syste.Circuit.Breaker
use distributed_tickit_syste.Circuit.Breaker.{Breaker}
use distributed_tickit_syste.Booking.App.{
  App, Server, Action, Reply, done, fails, fail, ◌>>=◌, breaker_of, put_breaker, or_key_error,
  transient, server_offline, simulated_failure, current_metrics,
}
use distributed_tickit_syste.Booking.Book.{
  BookReadings, begin_booking, check_seat, select_server, select_circuit_safe_server, take_lease,
  fail_offline, reserve_on_server, as_function, guarded, settle_booking, call_breaker,
  count_success, book_locked,
}
use distributed_tickit_syste.Booking.Steps.{
  bind_done, check_seat-Keeps, current_metrics-Keeps, select_server-Keeps,
  select_circuit_safe_server-Keeps, from_routed, from_selected, from_metrics,
}
use distributed_tickit_syste.Booking.Outcomes.{call_ends}

-- The server is there and switched on, and the simulated failure is not drawn.
abbrev pub IsServed : BookReadings → Dict String Server → String → Type 0
IsServed r servers server_id =
    (server : Server) × (lookup server_id servers ≡ some server)
    × (server.online ≡ true)
    × (r.draw_fails ≡ false)

fail_offline-fails :
    (r : BookReadings) (server_id : String) (a : App) → (fail_offline r server_id a).0 ≡ done tt → ⊥
fail_offline-fails r server_id a e =
    let (b, _, raised_there) =
      bind_done (breaker_of server_id)
        (λ b a'. (
          fails (transient (server_offline server_id)),
          put_breaker server_id (Breaker.record_failure r.offline_failure b) a',
        ))
        a e in
    absurd (cc)

reserve_on_server-IsServed :
    (r : BookReadings) (k : ℕ) (requester server_id : String) (a : App)
    → (reserve_on_server r k requester server_id a).0 ≡ done tt
    → IsServed r a.servers server_id
unfolding reserve_on_server
reserve_on_server-IsServed r k requester server_id a e =
    elim (Option-cases (lookup server_id a.servers)) [
      | inl missing ↦ let e' = rw (missing, reserve_on_server) at e in absurd (cc)
      | inr (server, at) ↦
          by_state server at server.online r.draw_fails refl refl (rw (at, reserve_on_server) at e)
    ]
  where
    by_state :
        (server : Server)
        → lookup server_id a.servers ≡ some server
        → (on drawn : Bool) → server.online ≡ on
        → r.draw_fails ≡ drawn
        → ((if server.online
              then (if r.draw_fails
                  then fail (transient (simulated_failure server_id))
                  else take_lease r k requester server_id)
              else fail_offline r server_id)
            a).0
          ≡ done tt
        → IsServed r a.servers server_id
    by_state server at true false on drawn e' = (server, at, on, drawn)
    by_state server at true true on drawn e' = let e'' = rw (on, drawn) at e' in absurd (cc)
    by_state server at false drawn' on drawn e' =
        absurd (fail_offline-fails r server_id a (rw on at e'))

or_key_error_app :
    {V : Type 0} (key : String) (o : Option V) (a : App) → (or_key_error key o a).1 ≡ a
or_key_error_app key none a = refl
or_key_error_app key (some x) a = refl

has_returned :
    (result : Reply (Unit {0}) × App) (x : App) → as_function result ≡ inl x → result.0 ≡ done tt
has_returned (done u, a) x e = refl
has_returned (fails err, a) x e = absurd (cc)

-- A guarded call that returns has called its function, which returned.
call_breaker-done :
    (r : BookReadings) (server_id : String) (m : Action (Unit {0})) (a : App)
    → (call_breaker r server_id m a).0 ≡ done tt
    → (b : Breaker) × ((m (put_breaker server_id b a)).0 ≡ done tt)
unfolding call_breaker
call_breaker-done r server_id m a e =
    let (b, _, ended) =
      bind_done (breaker_of server_id)
        (λ b a'.
          settle_booking server_id a'
            (Breaker.call r.call_at r.call_after (guarded server_id m a') b))
        a e in
    call_ends
      (λ out.
        (b'' : Breaker)
        → (settle_booking server_id (breaker_of server_id a).1 (out, b'')).0 ≡ done tt
        → (b : Breaker) × ((m (put_breaker server_id b a)).0 ≡ done tt))
      r.call_at r.call_after (guarded server_id m (breaker_of server_id a).1) b
      (λ b'' e'. absurd (cc))
      (λ b' x e' b'' _. (
        b',
        has_returned (m (put_breaker server_id b' a)) x
            (rw (or_key_error_app server_id (lookup server_id a.breakers) a) at e'),
      ))
      (λ b' x e' b'' e''. absurd (cc))
      (Breaker.call r.call_at r.call_after (guarded server_id m (breaker_of server_id a).1) b).1
      ended

from_routed-IsServed :
    (r : BookReadings) (k : ℕ) (requester selected server_id : String) (a : App)
    → (from_routed r k requester selected a).0 ≡ done server_id
    → IsServed r a.servers server_id
unfolding count_success
from_routed-IsServed r k requester selected server_id a e =
    let reserve = reserve_on_server r k requester selected in
    let (_, called, counted) =
      bind_done (call_breaker r selected reserve) (λ _. count_success r.routed_at selected) a e in
    let (b, reserved_there) = call_breaker-done r selected reserve a called in
    let same : selected ≡ server_id = cc in
    subst (λ sid. IsServed r a.servers sid) same
      (reserve_on_server-IsServed r k requester selected (put_breaker selected b a) reserved_there)

-- A booking that succeeds goes through a server that is there and switched on when the booking
-- begins, and no simulated failure has been drawn for it.
pub book_locked-IsServed :
    (hash : String → ℕ) (r : BookReadings) (k : ℕ) (requester server_id : String) (a : App)
    → (book_locked hash r k requester a).0 ≡ done server_id
    → IsServed r a.servers server_id
unfolding book_locked
book_locked-IsServed hash r k requester server_id a e =
    let a₀ = (begin_booking r a).1 in
    let (_, _, e₁) =
      bind_done (check_seat k)
        (λ _. (current_metrics r.metrics >>= from_metrics r k requester hash)) a₀ e in
    let a₁ = (check_seat k a₀).1 in
    let (metrics, _, e₂) =
      bind_done (current_metrics r.metrics) (from_metrics r k requester hash) a₁ e₁ in
    let a₂ = (current_metrics r.metrics a₁).1 in
    let (chosen, _, e₃) =
      bind_done (select_server hash metrics k) (from_selected r k requester metrics) a₂ e₂ in
    let a₃ = (select_server hash metrics k a₂).1 in
    let (selected, _, e₄) =
      bind_done (select_circuit_safe_server r chosen metrics) (from_routed r k requester) a₃ e₃ in
    let a₄ = (select_circuit_safe_server r chosen metrics a₃).1 in
    let same =
      (select_circuit_safe_server-Keeps r chosen metrics a₃).1
      ∙ (select_server-Keeps hash metrics k a₂).1
      ∙ (current_metrics-Keeps r.metrics a₁).1
      ∙ (check_seat-Keeps k a₀).1 in
    subst (λ servers. IsServed r servers server_id) same
      (from_routed-IsServed r k requester selected server_id a₄ e₄)
