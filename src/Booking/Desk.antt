-- ===== src/Booking/Desk.antt =====
-- dashboard.py: the seats and the leases on them, the part of DistributedTicketWebApp that decides
-- who gets a seat.
use distributed_tickit_syste.Common.{
  ℕ, String, Bool, true, false, none, some, [], ◌∷◌, foldl, ite, string_same, if◌then◌else◌,
  nat_key,
}
use distributed_tickit_syste.Common.Dict.{Dict, lookup, insert}
use distributed_tickit_syste.Locking.{
  Lease, LeaseError, Result, ok, raise, DistributedLeaseManager, acquire, renew, release, validate,
  expire_leases, remaining_seconds,
}
use distributed_tickit_syste.Locking

pub data SeatStatus : Type 0 where
  available locked reserved : SeatStatus

pub record Seat : Type 0 where
  pub state : SeatStatus
  pub owner : String
  pub lease_id : String
  pub expires_at : ℕ
  pub server : String

abbrev pub free_seat : Seat
free_seat = record { state = available; owner = ""; lease_id = ""; expires_at = 0; server = "" }

pub record Desk : Type 0 where
  pub seats : Dict ℕ Seat
  pub lease_manager : DistributedLeaseManager

abbrev pub is_locked : Seat → Bool
is_locked seat = elim seat.state [ locked ↦ true | _ ↦ false ]

abbrev pub is_empty : String → Bool
is_empty text = ite (string_same text "") true false

-- One expired lease in the loop of `_expire_leases_locked`.
unfoldable pub return_seat : Dict ℕ Seat → Lease → Dict ℕ Seat
return_seat seats lease = elim (lookup lease.seat_id seats) [
  | none ↦ seats
  | some seat ↦ if is_locked seat then insert lease.seat_id free_seat seats else seats
]

unfoldable pub expire_leases_locked : ℕ → Desk → Desk
unfolding return_seat
expire_leases_locked now d =
    let (expired, manager) = expire_leases now d.lease_manager in
    record { seats = foldl return_seat d.seats expired; lease_manager = manager }

-- The seat that a lease has been given on.
abbrev pub leased : Lease → (requester server_id : String) → Seat
leased lease requester server_id = record {
  state = locked;
  owner = requester;
  lease_id = lease.lease_id;
  expires_at = lease.expires_at;
  server = server_id;
}

-- The lease in `_reserve_on_server`, and the seat that it is on: both readings of the clock and the
-- uuid are those of `acquire`.
unfoldable pub lease_seat :
    (uuid : String) (now later seat_id : ℕ) (requester server_id : String)
    → Desk
    → Result Lease × Desk
lease_seat uuid now later seat_id requester server_id d =
    let (result, manager) =
      acquire uuid now later seat_id server_id requester (some 30000) d.lease_manager in
    (
      result,
      record {
        seats = elim result [
          | raise e ↦ d.seats
          | ok lease ↦ insert seat_id (leased lease requester server_id) d.seats
        ];
        lease_manager = manager;
      },
    )

-- How `confirm_seat`, `cancel_lock` and `renew_lease` end: with the value, or with the error that
-- `_fail` is called for.
pub data Reply (A : Type 0) : Type 0 where
  done : A → Reply A
  not_locked : Reply A
  lease_expired : Reply A

abbrev pub confirmed : Seat → Seat
confirmed seat = record seat { state = reserved; lease_id = ""; expires_at = 0 }

-- `confirm_seat` for a locked seat, from the reply of `validate` on.
abbrev pub confirm_validated :
    ℕ → Seat → Result Lease × DistributedLeaseManager → Desk → Reply Seat × Desk
confirm_validated seat_id seat (ok lease, manager) d = (
  done (confirmed seat),
  record {
    seats = insert seat_id (confirmed seat) d.seats;
    lease_manager = release seat.lease_id manager;
  },
)
confirm_validated seat_id seat (raise e, manager) d =
    (lease_expired, record d { lease_manager = manager })

unfoldable pub confirm_seat : (now seat_id : ℕ) → Desk → Reply Seat × Desk
confirm_seat now seat_id d = elim (lookup seat_id d.seats) [
  | none ↦ (not_locked, d)
  | some seat ↦
      if is_locked seat
      then confirm_validated seat_id seat
          (validate now seat.lease_id (some seat_id) d.lease_manager) d
      else (not_locked, d)
]

unfoldable pub cancel_lock : (seat_id : ℕ) → Desk → Reply (Unit {0}) × Desk
cancel_lock seat_id d = elim (lookup seat_id d.seats) [
  | none ↦ (not_locked, d)
  | some seat ↦
      if is_locked seat
      then (
        done tt,
        record {
          seats = insert seat_id free_seat d.seats;
          lease_manager =
              if is_empty seat.lease_id
              then d.lease_manager
              else release seat.lease_id d.lease_manager;
        },
      )
      else (not_locked, d)
]

-- `renew_lease` from the reply of `renew` on; `asked` is the reading of `remaining_seconds`.
abbrev pub renew_replied :
    (asked seat_id : ℕ) → Seat → Result Lease × DistributedLeaseManager → Desk → Reply ℕ × Desk
renew_replied asked seat_id seat (ok renewed, manager) d = (
  done (remaining_seconds renewed asked),
  record {
    seats = insert seat_id (record seat { expires_at = renewed.expires_at }) d.seats;
    lease_manager = manager;
  },
)
renew_replied asked seat_id seat (raise e, manager) d =
    (lease_expired, record d { lease_manager = manager })

unfoldable pub renew_lease : (now later asked seat_id : ℕ) → Desk → Reply ℕ × Desk
renew_lease now later asked seat_id d = elim (lookup seat_id d.seats) [
  | none ↦ (not_locked, d)
  | some seat ↦
      if is_locked seat
      then (if is_empty seat.lease_id
          then (not_locked, d)
          else renew_replied asked seat_id seat (renew now later seat.lease_id none d.lease_manager)
              d)
      else (not_locked, d)
]

-- `reset`, for the seats: every one is available, and the lease manager is a new one.
abbrev pub free_all : Dict ℕ Seat → Dict ℕ Seat
free_all [] = []
free_all ((k, seat) ∷ seats) = (k, free_seat) ∷ free_all seats

unfoldable pub reset : Desk → Desk
unfolding Locking.init
reset d = record { seats = free_all d.seats; lease_manager = Locking.init 30000 }
