-- ===== src/Booking/AllOrNothing.antt =====
-- What a booking leaves of the seats.
use distributed_tickit_syste.Common.{
  ℕ, ◌≡◌, refl, ◌∙◌, ap, String, some, ite, ℕ_discrete, nat_key, inl, inr,
}
use distributed_tickit_syste.Common.Dict.{lookup, insert, lookup-insert}
use distributed_tickit_syste.Locking.{Lease, LeaseError, ok, raise}
use distributed_tickit_syste.Booking.Desk.{Desk, leased, lease_seat, expire_leases_locked}
use distributed_tickit_syste.Booking.App.{App, Reply, done, fails}
use distributed_tickit_syste.Booking.Book.{BookReadings, book_locked}
use distributed_tickit_syste.Booking.Outcomes.{IsFree, tried, Booked, book_locked_lem}

seats-leased :
    (uuid : String) (now later k : ℕ) (requester server_id : String) (d : Desk) (lease : Lease)
    → (lease_seat uuid now later k requester server_id d).0 ≡ ok lease
    → (lease_seat uuid now later k requester server_id d).1.seats
      ≡ insert k (leased lease requester server_id) d.seats
unfolding lease_seat
seats-leased uuid now later k requester server_id d lease given = rw (given, lease_seat) refl

seats-refused :
    (uuid : String) (now later k : ℕ) (requester server_id : String) (d : Desk) (e : LeaseError)
    → (lease_seat uuid now later k requester server_id d).0 ≡ raise e
    → (lease_seat uuid now later k requester server_id d).1.seats ≡ d.seats
unfolding lease_seat
seats-refused uuid now later k requester server_id d e given = rw (given, lease_seat) refl

module _ (r : BookReadings) (k : ℕ) (requester : String) (d : Desk) where
  -- The seats that a booking ends with, when the desk was `d` after the expiry.
  abbrev pub SeatsAfter : Reply String × App → Type 0
  SeatsAfter (done server_id, a) =
      IsFree r k requester d
      × ((lease : Lease) × ((tried r k requester d server_id).0 ≡ ok lease)
          × ((j : ℕ)
              → lookup j a.desk.seats
                ≡ ite (ℕ_discrete k j) (some (leased lease requester server_id))
                    (lookup j d.seats)))
  SeatsAfter (fails e, a) = a.desk.seats ≡ d.seats

  seats_of : (result : Reply String × App) → Booked r k requester d result → SeatsAfter result
  seats_of (done sid, a) (free, (lease, got, moved)) =
      let all =
        ap (λ d'. d'.seats) moved
        ∙ seats-leased r.uuid r.lease_now r.lease_later k requester sid d lease got in
      (
        free,
        (
          lease,
          got,
          λ j. ap (lookup j) all ∙ lookup-insert j k (leased lease requester sid) d.seats,
        ),
      )
  seats_of (fails e, a) (sid, inl same) = ap (λ d'. d'.seats) same
  seats_of (fails e, a) (sid, inr (err, got, moved)) =
      ap (λ d'. d'.seats) moved
      ∙ seats-refused r.uuid r.lease_now r.lease_later k requester sid d err got

-- All or nothing. A booking first returns the seats whose leases are over. If it then succeeds, the
-- seat was available, the server that it reports has got a lease on it, and the seat is locked
-- for the requester under that lease, while every other seat is as before. If it fails, for whatever
-- reason and at whatever step, no seat changes.
pub book_locked-seats :
    (hash : String → ℕ) (r : BookReadings) (k : ℕ) (requester : String) (a : App)
    → SeatsAfter r k requester
        (expire_leases_locked r.expired_at a.desk)
        (book_locked hash r k requester a)
book_locked-seats hash r k requester a =
    seats_of r k requester (expire_leases_locked r.expired_at a.desk)
      (book_locked hash r k requester a) (book_locked_lem hash r k requester a)
