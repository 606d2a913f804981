-- ===== src/Booking/Return.antt =====
-- A seat comes back when its lease is over.
use distributed_tickit_syste.Common.{
  ℕ, ◌≡◌, refl, ◌∙◌, ap, String, true, Option, none, some, nat_key, arith, leb,
}
use distributed_tickit_syste.Common.Dict.{lookup}
use distributed_tickit_syste.Locking.{Lease}
use distributed_tickit_syste.Locking.Expiry.{live, lookup_seat-after_expiry}
use distributed_tickit_syste.Booking.Desk.{Seat, free_seat, Desk, expire_leases_locked}
use distributed_tickit_syste.Booking.Expired.{
  seat_after, lookup-expire_leases_locked, leases-expire_leases_locked,
}
use distributed_tickit_syste.Booking.Soundness.{Backs, IsSound}
use distributed_tickit_syste.Booking.App.{App}
use distributed_tickit_syste.Booking.Snapshot.{SnapshotReadings}
use distributed_tickit_syste.Booking.Trace.{snapshot, after}
use distributed_tickit_syste.Booking.Untouched.{desk-snapshot}
use distributed_tickit_syste.Booking.Reach.{Reach, Reach-IsSound}

backed_returns :
    (now : ℕ) (l : Lease) (o : Option Seat)
    → Backs (some l) o
    → leb l.expires_at now ≡ true
    → seat_after now (some l) o ≡ some free_seat
backed_returns now l none backed over = absurd backed
backed_returns now l (some seat) (lock, same, named) over = ground (arith, lock, over)

module _ (d : Desk) (v : IsSound d) (now k : ℕ) (l : Lease)
    (held : lookup k d.lease_manager.leases_by_seat ≡ some l)
    (over : leb l.expires_at now ≡ true) where
  seat_returns : lookup k (expire_leases_locked now d).seats ≡ some free_seat
  seat_returns =
      lookup-expire_leases_locked now d k v.consistent
      ∙ ap (λ o. seat_after now o (lookup k d.seats)) held
      ∙ backed_returns now l (lookup k d.seats) (rw held at (v.backed k)) over

  lease_ends : lookup k (expire_leases_locked now d).lease_manager.leases_by_seat ≡ none
  lease_ends =
      ap (λ m. lookup k m.leases_by_seat) (leases-expire_leases_locked now d)
      ∙ lookup_seat-after_expiry now d.lease_manager v.consistent k
      ∙ ap (live now) held
      ∙ rw over refl

-- Once the lease on a seat is over, the next view of the state makes the seat available again, free of
-- owner and lease, whatever calls have led to it.
pub expired_seat_returns :
    {hash : String → ℕ} {a : App} (r : SnapshotReadings) (k : ℕ) (l : Lease)
    → Reach hash a
    → lookup k a.desk.lease_manager.leases_by_seat ≡ some l
    → leb l.expires_at r.expired_at ≡ true
    → (lookup k (after hash (snapshot r) a).desk.seats ≡ some free_seat)
      × (lookup k (after hash (snapshot r) a).desk.lease_manager.leases_by_seat ≡ none)
unfolding after
expired_seat_returns {hash} {a} r k l reached held over =
    let v = Reach-IsSound reached in
    rw (desk-snapshot r a) (
      seat_returns a.desk v r.expired_at k l held over,
      lease_ends a.desk v r.expired_at k l held over,
    )
