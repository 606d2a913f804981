-- ===== src/Booking/Trace.antt =====
-- dashboard.py: sequences of calls of the app, each of which runs under the app's lock.
use distributed_tickit_syste.Common.{
  ℕ, ◌≡◌, refl, inl, inr, String, false, none, some, nat_key, string_key, Option-cases,
}
use distributed_tickit_syste.Common.Dict.{lookup}
use distributed_tickit_syste.Locking.{Lease, after_expiry, LeaseError, acquire}
use distributed_tickit_syste.Locking
use distributed_tickit_syste.Sync.Simulator.{Timer}
use distributed_tickit_syste.Booking.Desk.{
  Seat, available, Desk, is_empty, expire_leases_locked, lease_seat,
}
use distributed_tickit_syste.Booking.Calls.{with_manager}
use distributed_tickit_syste.Booking.App
use distributed_tickit_syste.Booking.App.{App, Server}
use distributed_tickit_syste.Booking.Book.{BookReadings, book_locked}
use distributed_tickit_syste.Booking.Outcomes.{Booked, book_locked_lem}
use distributed_tickit_syste.Booking.Methods
use distributed_tickit_syste.Booking.Snapshot
use distributed_tickit_syste.Booking.Snapshot.{SnapshotReadings}
use distributed_tickit_syste.Booking.Methods.{ToggleReadings, replicators_for}
use distributed_tickit_syste.Booking.Methods.{on_sync_delivered, switch_on, apply_recovery}

-- A call of the app, with what it reads.
pub data Call : Type 0 where
  book : BookReadings → (seat_id : ℕ) → (requester : String) → Call
  confirm : (now : ℕ) (stamp : String) (delays : String → ℕ) (seat_id : ℕ) → Call
  cancel : (seat_id : ℕ) → Call
  renew : (now later asked seat_id : ℕ) → Call
  reset : (String → ℕ → String) → Call
  set_strategy : (name : String) → Call
  toggle : ToggleReadings → (server_id : String) → Call
  deliver : Timer → Call
  snapshot : SnapshotReadings → Call

-- The app that a call leaves, whether it returns or raises.
unfoldable pub after : (hash : String → ℕ) → Call → App → App
after hash (book r k requester) a = (book_locked hash r k requester a).1
after hash (confirm now stamp delays k) a = (Methods.confirm_seat now stamp delays k a).1
after hash (cancel k) a = (Methods.cancel_lock k a).1
after hash (renew now later asked k) a = (Methods.renew_lease now later asked k a).1
after hash (reset stamps) a = Methods.reset stamps a
after hash (set_strategy name) a = Methods.set_strategy name a
after hash (toggle r sid) a = Methods.toggle_server r sid a
after hash (deliver timer) a = Methods.deliver timer a
after hash (snapshot r) a = (Snapshot.snapshot r a).1

-- `uuid.uuid4()` is not empty and does not return the id of a lease that is still held.
abbrev pub IsFresh : Call → App → Type 0
IsFresh (book r k requester) a =
    (lookup r.uuid a.desk.lease_manager.leases_by_id ≡ none) × (is_empty r.uuid ≡ false)
IsFresh _ a = Unit

-- A lease that is refused changes no seat.
lease_seat-raise :
    (uuid : String) (now later k : ℕ) (requester server_id : String) (d : Desk) (e : LeaseError)
    → (lease_seat uuid now later k requester server_id d).0 ≡ Locking.raise e
    → (lease_seat uuid now later k requester server_id d).1
      ≡ with_manager (after_expiry now d.lease_manager) d
unfolding lease_seat acquire
lease_seat-raise uuid now later k requester server_id d e given =
    elim (Option-cases (lookup k (after_expiry now d.lease_manager).leases_by_seat)) [
      | inl free ↦ absurd (clash (rw (free, lease_seat, acquire) at given))
      | inr (l, taken) ↦ rw (taken, lease_seat, acquire) refl
    ]
  where
    clash : {lease : Lease} → Locking.ok lease ≡ Locking.raise e → ⊥
    clash same = cc

module _ (r : BookReadings) (k : ℕ) (requester : String) (a : App) where
  abbrev desk_then : Desk
  desk_then = expire_leases_locked r.expired_at a.desk

  abbrev leased_by : String → Desk
  leased_by sid = (lease_seat r.uuid r.lease_now r.lease_later k requester sid desk_then).1

  -- What holds of the desk however a booking ends.
  pub book_ends :
      (R : Desk → Type 0) (hash : String → ℕ)
      → R desk_then
      → R (with_manager (after_expiry r.lease_now desk_then.lease_manager) desk_then)
      → ((seat : Seat)
          → lookup k desk_then.seats ≡ some seat
          → seat.state ≡ available
          → (sid : String) → R (leased_by sid))
      → R (book_locked hash r k requester a).1.desk
  book_ends R hash kept refused leases =
      by_end (book_locked hash r k requester a) (book_locked_lem hash r k requester a)
    where
      by_end :
          (result : App.Reply String × App)
          → Booked r k requester desk_then result
          → R result.1.desk
      by_end (App.done sid, a') ((seat, at, free), (lease, got, moved)) =
          rw moved (leases seat at free sid)
      by_end (App.fails e, a') (sid, inl same) = rw same kept
      by_end (App.fails e, a') (sid, inr (err, got, moved)) =
          rw
            (
              moved,
              lease_seat-raise r.uuid r.lease_now r.lease_later k requester sid desk_then err got,
            )
            refused
