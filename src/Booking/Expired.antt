-- ===== src/Booking/Expired.antt =====
-- What `_expire_leases_locked` does to each seat.
use distributed_tickit_syste.Common.{
  ℕ, ◌≡◌, refl, ◌∙◌, Option, none, some, List, [], ◌∷◌, foldl, if◌then◌else◌, nat_key, arith,
  Bool-cases, Option-cases, inl, inr, leb,
}
use distributed_tickit_syste.Common.Dict.{Dict, lookup, lookup-insert}
use distributed_tickit_syste.Locking.{Lease, after_expiry, expired_at, expire_locked, expire_leases}
use distributed_tickit_syste.Locking.Expiry.{
  IsConsistent, any, on_seat, expired_of_seat, seat_found_expired,
}
use distributed_tickit_syste.Booking.Desk.{
  Seat, free_seat, Desk, is_locked, return_seat, expire_leases_locked,
}

-- A locked seat becomes available, any other stays.
abbrev pub returned : Option Seat → Option Seat
returned none = none
returned (some seat) = if is_locked seat then some free_seat else some seat

lookup-return_all :
    (k : ℕ) (leases : List Lease) (seats : Dict ℕ Seat)
    → lookup k (foldl return_seat seats leases)
      ≡ (if any (on_seat k) leases then returned (lookup k seats) else lookup k seats)
unfolding any return_seat
lookup-return_all k [] seats = refl
lookup-return_all k (l ∷ leases) seats = ground (
  arith,
  lookup-return_all k leases (return_seat seats l),
  lookup-insert k l.seat_id free_seat seats,
)

-- The seat after the leases that are over at `now` are dropped, by the lease that was on it.
abbrev pub seat_after : ℕ → Option Lease → Option Seat → Option Seat
seat_after now none seat = seat
seat_after now (some l) seat = if leb l.expires_at now then returned seat else seat

pub lookup-expire_leases_locked :
    (now : ℕ) (d : Desk) (k : ℕ)
    → IsConsistent d.lease_manager
    → lookup k (expire_leases_locked now d).seats
      ≡ seat_after now (lookup k d.lease_manager.leases_by_seat) (lookup k d.seats)
unfolding expire_leases_locked expire_leases expire_locked
lookup-expire_leases_locked now d k c =
    let found = lookup-return_all k (expired_at now d.lease_manager) d.seats in
    elim (Bool-cases (any (on_seat k) (expired_at now d.lease_manager))) [
      | inl e ↦
          let (l, at, old) = expired_of_seat now d.lease_manager c k e in
          found ∙ rw (e, at, old) refl
      | inr e ↦ elim (Option-cases (lookup k d.lease_manager.leases_by_seat)) [
        | inl free ↦ found ∙ rw (e, free) refl
        | inr (l, at) ↦
            found ∙ rw (e, at) (ground (arith, seat_found_expired now d.lease_manager c k l at))
      ]
    ]

pub leases-expire_leases_locked :
    (now : ℕ) (d : Desk)
    → (expire_leases_locked now d).lease_manager ≡ after_expiry now d.lease_manager
unfolding expire_leases_locked expire_leases expire_locked
leases-expire_leases_locked now d = refl
