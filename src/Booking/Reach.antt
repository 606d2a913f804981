-- ===== src/Booking/Reach.antt =====
-- The apps that calls can lead to, and what is true of their seats and leases.
use distributed_tickit_syste.Common.{
  ℕ, ◌≡◌, refl, ◌∙◌, ap, String, none, List, [], ◌∷◌, nat_key, string_key,
}
use distributed_tickit_syste.Common.Dict.{lookup}
use distributed_tickit_syste.Locking.{after_expiry}
use distributed_tickit_syste.Locking
use distributed_tickit_syste.Locking.Expiry.{live, lookup_id-after_expiry}
use distributed_tickit_syste.Locking.Invariant.{init-IsConsistent}
use distributed_tickit_syste.Booking.Desk.{Seat, expire_leases_locked}
use distributed_tickit_syste.Booking.Expired.{leases-expire_leases_locked}
use distributed_tickit_syste.Booking.Soundness.{
  IsSound, expire_leases_locked-IsSound, lease_seat-IsSound,
}
use distributed_tickit_syste.Booking.Calls.{
  after_expiry-IsSound, confirm_seat-IsSound, cancel_lock-IsSound, renew_lease-IsSound,
  reset-IsSound,
}
use distributed_tickit_syste.Booking.Kept.{
  IsReserved, expire_leases_locked-IsReserved, lease_seat-IsReserved, confirm_seat-IsReserved,
  cancel_lock-IsReserved, renew_lease-IsReserved,
}
use distributed_tickit_syste.Booking.Stranded.{
  IsStranded, after_expiry_free, expire_leases_locked-IsStranded, lease_seat-IsStranded,
}
use distributed_tickit_syste.Booking.Stranding.{
  confirm_seat-IsStranded, cancel_lock-IsStranded, renew_lease-IsStranded,
}
use distributed_tickit_syste.Booking.App.{App}
use distributed_tickit_syste.Booking.Book.{BookReadings}
use distributed_tickit_syste.Booking.Methods
use distributed_tickit_syste.Booking.Methods.{
  ToggleReadings, on_sync_delivered, switch_on, apply_recovery, toggle_server, primary_seats,
}
use distributed_tickit_syste.Booking.Init.{
  InitReadings, init, record_initial_heartbeats, before_synchronization,
}
use distributed_tickit_syste.Booking.Untouched.{
  outer-confirm_seat, outer-cancel_lock, outer-renew_lease, outer-deliver, desk-snapshot,
  outer-toggle_server, desks,
}
use distributed_tickit_syste.Booking.Steps.{outer}
use distributed_tickit_syste.Booking.Trace.{
  Call, book, confirm, cancel, renew, reset, set_strategy, toggle, deliver, snapshot, after,
  IsFresh, book_ends,
}

pub outer-record_initial_heartbeats :
    (r : InitReadings) (ids : List String) (a : App)
    → outer (record_initial_heartbeats r ids a) ≡ outer a
unfolding record_initial_heartbeats
outer-record_initial_heartbeats r [] a = refl
outer-record_initial_heartbeats r (sid ∷ ids) a = outer-record_initial_heartbeats r ids _

init-IsSound : (r : InitReadings) → IsSound (init r).desk
unfolding init Locking.init Methods.initialize_synchronization lookup
init-IsSound r =
    rw
      (desks (
        outer-record_initial_heartbeats r Methods.server_ids
          (Methods.initialize_synchronization r.stamps (before_synchronization r))))
      (record { consistent = init-IsConsistent 30000; backed = λ k. tt })

-- A fresh id is still fresh when leases that are over have been dropped.
fresh_then :
    (r : BookReadings) (a : App)
    → IsSound a.desk
    → lookup r.uuid a.desk.lease_manager.leases_by_id ≡ none
    → lookup r.uuid (expire_leases_locked r.expired_at a.desk).lease_manager.leases_by_id ≡ none
fresh_then r a v fresh =
    ap (λ m. lookup r.uuid m.leases_by_id) (leases-expire_leases_locked r.expired_at a.desk)
    ∙ lookup_id-after_expiry r.expired_at a.desk.lease_manager v.consistent r.uuid
    ∙ ap (live r.expired_at) fresh

pub after-IsSound :
    (hash : String → ℕ) (call : Call) (a : App)
    → IsSound a.desk
    → IsFresh call a
    → IsSound (after hash call a).desk
unfolding after Methods.reset Methods.initialize_synchronization Methods.set_strategy
    Methods.deliver
after-IsSound hash (book r k requester) a v (fresh, named) =
    let v' = expire_leases_locked-IsSound a.desk v r.expired_at in
    book_ends r k requester a IsSound hash v' (after_expiry-IsSound _ v' r.lease_now)
      (λ seat at free sid.
        lease_seat-IsSound _ v' r.uuid r.lease_now r.lease_later k requester sid
          (fresh_then r a v fresh) named)
after-IsSound hash (confirm now stamp delays k) a v _ =
    rw (desks (outer-confirm_seat now stamp delays k a)) (confirm_seat-IsSound now k a.desk v)
after-IsSound hash (cancel k) a v _ =
    rw (desks (outer-cancel_lock k a)) (cancel_lock-IsSound k a.desk v)
after-IsSound hash (renew now later asked k) a v _ =
    rw (desks (outer-renew_lease now later asked k a))
      (renew_lease-IsSound now later asked k a.desk v)
after-IsSound hash (reset stamps) a v _ = reset-IsSound a.desk
after-IsSound hash (set_strategy name) a v _ = v
after-IsSound hash (toggle r sid) a v _ = rw (desks (outer-toggle_server r sid a)) v
after-IsSound hash (deliver timer) a v _ = rw (desks (outer-deliver timer a)) v
after-IsSound hash (snapshot r) a v _ =
    rw (desk-snapshot r a) (expire_leases_locked-IsSound a.desk v r.expired_at)

-- The apps that calls can lead to, in any order and with any readings of the clock and draws.
pub data Reach (hash : String → ℕ) : App → Type 0 where
  start : (r : InitReadings) → Reach hash (init r)
  next : {a : App} (call : Call) → Reach hash a → IsFresh call a → Reach hash (after hash call a)

-- Whatever calls were made, the two maps of the lease manager agree, and a lease that is on a seat
-- is the one that the locked seat names, as long as no booking gets an empty id or the id of a
-- lease that is still held.
pub Reach-IsSound : {hash : String → ℕ} {a : App} → Reach hash a → IsSound a.desk
Reach-IsSound {hash} (start r) = init-IsSound r
Reach-IsSound {hash} (next {a} call reached fresh) =
    after-IsSound hash call a (Reach-IsSound reached) fresh

-- The calls that are not the reset.
abbrev pub IsNotReset : Call → Type 0
IsNotReset (reset stamps) = ⊥
IsNotReset _ = Unit

-- A seat that has been confirmed stays as it is, whatever is called and whatever seat it is called
-- for, until the app is reset: it is not booked, cancelled or returned, and keeps its owner.
pub after-IsReserved :
    {hash : String → ℕ} {a : App} (call : Call) (k : ℕ) (seat : Seat)
    → Reach hash a
    → IsNotReset call
    → IsReserved k seat a.desk
    → IsReserved k seat (after hash call a).desk
unfolding after Methods.set_strategy Methods.deliver
after-IsReserved {hash} {a} (book r j requester) k seat reached _ held =
    let begun =
      expire_leases_locked-IsReserved k seat r.expired_at a.desk (Reach-IsSound reached) held in
    book_ends r j requester a (IsReserved k seat) hash begun begun (λ old at free sid.
      lease_seat-IsReserved k seat r.uuid r.lease_now r.lease_later j requester sid _ old at free
        begun)
after-IsReserved {hash} {a} (confirm now stamp delays j) k seat reached _ held =
    rw (desks (outer-confirm_seat now stamp delays j a))
      (confirm_seat-IsReserved k seat now j a.desk held)
after-IsReserved {hash} {a} (cancel j) k seat reached _ held =
    rw (desks (outer-cancel_lock j a)) (cancel_lock-IsReserved k seat j a.desk held)
after-IsReserved {hash} {a} (renew now later asked j) k seat reached _ held =
    rw (desks (outer-renew_lease now later asked j a))
      (renew_lease-IsReserved k seat now later asked j a.desk held)
after-IsReserved (reset stamps) k seat reached spared held = absurd spared
after-IsReserved (set_strategy name) k seat reached _ held = held
after-IsReserved {hash} {a} (toggle r sid) k seat reached _ held =
    rw (desks (outer-toggle_server r sid a)) held
after-IsReserved {hash} {a} (deliver timer) k seat reached _ held =
    rw (desks (outer-deliver timer a)) held
after-IsReserved {hash} {a} (snapshot r) k seat reached _ held =
    rw (desk-snapshot r a)
      (expire_leases_locked-IsReserved k seat r.expired_at a.desk (Reach-IsSound reached) held)

-- The calls that leave the seat alone: neither the reset nor its own cancellation.
abbrev pub IsNotRelease : ℕ → Call → Type 0
IsNotRelease k (reset stamps) = ⊥
IsNotRelease k (cancel j) = j ≡ k → ⊥
IsNotRelease k _ = Unit

-- A seat that is locked without a lease stays so whatever is called, bookings, confirmations,
-- renewals and expiries of it included, until it is cancelled or the app is reset.
pub after-IsStranded :
    {hash : String → ℕ} {a : App} (call : Call) (k : ℕ)
    → Reach hash a
    → IsNotRelease k call
    → IsStranded k a.desk
    → IsStranded k (after hash call a).desk
unfolding after Methods.set_strategy Methods.deliver
after-IsStranded {hash} {a} (book r j requester) k reached _ held =
    let v = Reach-IsSound reached in
    let v' = expire_leases_locked-IsSound a.desk v r.expired_at in
    let begun = expire_leases_locked-IsStranded a.desk v k held r.expired_at in
    book_ends r j requester a (IsStranded k) hash begun
      (begun.0, after_expiry_free _ v'.consistent k begun.1 r.lease_now)
      (λ old at free sid.
        lease_seat-IsStranded _ v' k begun r.uuid r.lease_now r.lease_later j requester sid old at
          free)
after-IsStranded {hash} {a} (confirm now stamp delays j) k reached _ held =
    rw (desks (outer-confirm_seat now stamp delays j a))
      (confirm_seat-IsStranded a.desk (Reach-IsSound reached) k held now j)
after-IsStranded {hash} {a} (cancel j) k reached other held =
    rw (desks (outer-cancel_lock j a))
      (cancel_lock-IsStranded a.desk (Reach-IsSound reached) k held j other)
after-IsStranded {hash} {a} (renew now later asked j) k reached _ held =
    rw (desks (outer-renew_lease now later asked j a))
      (renew_lease-IsStranded a.desk (Reach-IsSound reached) k held now later asked j)
after-IsStranded (reset stamps) k reached spared held = absurd spared
after-IsStranded (set_strategy name) k reached _ held = held
after-IsStranded {hash} {a} (toggle r sid) k reached _ held =
    rw (desks (outer-toggle_server r sid a)) held
after-IsStranded {hash} {a} (deliver timer) k reached _ held =
    rw (desks (outer-deliver timer a)) held
after-IsStranded {hash} {a} (snapshot r) k reached _ held =
    rw (desk-snapshot r a)
      (expire_leases_locked-IsStranded a.desk (Reach-IsSound reached) k held r.expired_at)
