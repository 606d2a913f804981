-- ===== src/Locking.antt =====
-- locking/lease_manager.py: leases on seats that expire.
-- Times are whole milliseconds, each reading of `_time_fn` an argument of its own, in the order
-- of the readings; `uuid.uuid4()` is an argument too. An exception carries what its message shows.
pub mod Expiry
pub mod Invariant
pub mod Exclusion
pub mod Trace
pub mod Table
mod Tests
use distributed_tickit_syste.Common.{
  ℕ, ◌+◌, ◌-◌, ◌/◌, ◌%◌, String, Option, none, some, List, [], foldl, ltb, leb, filter,
  if◌then◌else◌, ite, ℕ_discrete, string_same, Key, nat_key, string_key,
}
use distributed_tickit_syste.Common.Dict.{Dict, lookup, insert, erase, values}

pub record Lease : Type 0 where
  pub lease_id : String
  pub seat_id : ℕ
  pub holder : String
  pub owner : String
  pub expires_at : ℕ

-- `round` of a number of milliseconds to seconds: half goes to the even neighbour.
pub round_seconds : ℕ → ℕ
round_seconds ms =
    let q = ms / 1000 in
    let r = ms % 1000 in if ltb r 500 then q else if ltb 500 r then q + 1 else q + q % 2

-- `Lease.remaining_seconds`: a lease that is over has 0 left.
pub remaining_seconds : Lease → ℕ → ℕ
unfolding round_seconds
remaining_seconds lease now = round_seconds (lease.expires_at - now)

-- Equality of the dataclass, by its fields.
pub Lease-discrete : Discrete Lease
Lease-discrete = hlevel (ℕ_discrete, string_same)

pub data LeaseError : Type 0 where
  -- the seat, the holder of its lease and the seconds left
  conflict : ℕ → String → ℕ → LeaseError
  -- the lease that is not active
  not_active : String → LeaseError
  -- the lease and the seat that it does not belong to
  wrong_seat : String → ℕ → LeaseError

pub data Result (A : Type 0) : Type 0 where
  ok : A → Result A
  raise : LeaseError → Result A

pub record DistributedLeaseManager : Type 0 where
  pub default_ttl_seconds : ℕ
  pub leases_by_seat : Dict ℕ Lease
  pub leases_by_id : Dict String Lease

unfoldable pub init : ℕ → DistributedLeaseManager
init ttl = record { default_ttl_seconds = ttl; leases_by_seat = []; leases_by_id = [] }

-- The body of the loop of `_expire_locked`.
unfoldable pub drop_lease : DistributedLeaseManager → Lease → DistributedLeaseManager
drop_lease m lease = record m {
  leases_by_seat = erase lease.seat_id m.leases_by_seat;
  leases_by_id = erase lease.lease_id m.leases_by_id;
}

unfoldable pub expired_at : ℕ → DistributedLeaseManager → List Lease
expired_at now m = filter (λ lease. leb lease.expires_at now) (values m.leases_by_seat)

unfoldable pub expire_locked : ℕ → DistributedLeaseManager → List Lease × DistributedLeaseManager
expire_locked now m = (expired_at now m, foldl drop_lease m (expired_at now m))

-- The manager after the leases that are over at `now` have been dropped.
abbrev pub after_expiry : ℕ → DistributedLeaseManager → DistributedLeaseManager
after_expiry now m = (expire_locked now m).1

abbrev pub or_default : Option ℕ → ℕ → ℕ
or_default none d = d
or_default (some t) d = t

abbrev pub store_lease : Lease → DistributedLeaseManager → DistributedLeaseManager
store_lease lease m = record m {
  leases_by_seat = insert lease.seat_id lease m.leases_by_seat;
  leases_by_id = insert lease.lease_id lease m.leases_by_id;
}

-- `now` is read by `_expire_locked`, `later` for the message or the expiry.
unfoldable pub acquire :
    (uuid : String) (now later seat_id : ℕ) (holder owner : String) (ttl : Option ℕ)
    → DistributedLeaseManager
    → Result Lease × DistributedLeaseManager
acquire uuid now later seat_id holder owner ttl m =
    let m' = after_expiry now m in
    elim (lookup seat_id (after_expiry now m).leases_by_seat) [
      | some existing ↦
          (raise (conflict seat_id existing.holder (remaining_seconds existing later)), m')
      | none ↦
          let lease : Lease = record {
            lease_id = uuid;
            seat_id = seat_id;
            holder = holder;
            owner = owner;
            expires_at = later + or_default ttl m'.default_ttl_seconds;
          } in
          (ok lease, store_lease lease m')
    ]

unfoldable pub renew :
    (now later : ℕ) (lease_id : String) (ttl : Option ℕ)
    → DistributedLeaseManager
    → Result Lease × DistributedLeaseManager
renew now later lease_id ttl m =
    let m' = after_expiry now m in
    elim (lookup lease_id (after_expiry now m).leases_by_id) [
      | none ↦ (raise (not_active lease_id), m')
      | some lease ↦
          let renewed : Lease = record lease {
            expires_at = later + or_default ttl m'.default_ttl_seconds;
          } in
          (ok renewed, store_lease renewed m')
    ]

-- The second `if` of `release`: the seat's entry goes if it is this very lease.
abbrev pub free_seat : Lease → DistributedLeaseManager → DistributedLeaseManager
free_seat lease m = elim (lookup lease.seat_id m.leases_by_seat) [
  | none ↦ m
  | some held ↦
      ite (Lease-discrete held lease)
        (record m { leases_by_seat = erase lease.seat_id m.leases_by_seat }) m
]

unfoldable pub release : String → DistributedLeaseManager → DistributedLeaseManager
release lease_id m =
    let m' : DistributedLeaseManager = record m { leases_by_id = erase lease_id m.leases_by_id } in
    elim (lookup lease_id m.leases_by_id) [ none ↦ m' | some lease ↦ free_seat lease m' ]

-- The test of the optional `seat_id` of `validate`.
abbrev pub check_seat : Option ℕ → Lease → Result Lease
check_seat none lease = ok lease
check_seat (some seat_id) lease =
    ite (ℕ_discrete lease.seat_id seat_id) (ok lease) (raise (wrong_seat lease.lease_id seat_id))

unfoldable pub validate :
    (now : ℕ) (lease_id : String) (seat_id : Option ℕ)
    → DistributedLeaseManager
    → Result Lease × DistributedLeaseManager
validate now lease_id seat_id m =
    let m' = after_expiry now m in
    elim (lookup lease_id (after_expiry now m).leases_by_id) [
      | none ↦ (raise (not_active lease_id), m')
      | some lease ↦ (check_seat seat_id lease, m')
    ]

unfoldable pub get_active_lease :
    (now seat_id : ℕ) → DistributedLeaseManager → Option Lease × DistributedLeaseManager
get_active_lease now seat_id m =
    let m' = after_expiry now m in (lookup seat_id m'.leases_by_seat, m')

unfoldable pub expire_leases :
    (now : ℕ) → DistributedLeaseManager → List Lease × DistributedLeaseManager
expire_leases now m = expire_locked now m
