-- ===== src/Locking/Table.antt =====
-- What a client of the lease manager sees, as one table: a row for each lease, in the order in which
-- the seats were taken. A lease is found by a search, so no two maps have to agree.
pub mod Rows
pub mod Lookup
pub mod Steps
pub mod Refinement
use distributed_tickit_syste.Common.{
  ℕ, ◌+◌, String, Bool, not, Option, none, some, List, [], ◌∷◌, ◌++◌, map, filter, if◌then◌else◌,
}
use distributed_tickit_syste.Locking.{
  Lease, Result, ok, raise, conflict, not_active, remaining_seconds, or_default, check_seat,
}
use distributed_tickit_syste.Locking.Expiry.{on_seat, has_id, over}
use distributed_tickit_syste.Locking.Trace.{
  Call, acquire, renew, release, validate, get_active_lease, expire_leases,
}

-- What a call returns or raises.
pub data LeaseAnswer : Type 0 where
  replied : Result Lease → LeaseAnswer
  active : Option Lease → LeaseAnswer
  expired : List Lease → LeaseAnswer
  nothing : LeaseAnswer

unfoldable pub find {ℓ} : {A : Type ℓ} → (A → Bool) → List A → Option A
find p [] = none
find p (x ∷ xs) = if p x then some x else find p xs

-- The rows that are not over.
abbrev pub in_force : ℕ → List Lease → List Lease
in_force now rows = filter (λ l. not (over now l)) rows

-- The row of the seat is changed in its place.
abbrev pub replace : Lease → List Lease → List Lease
replace lease rows = map (λ l. if on_seat lease.seat_id l then lease else l) rows

unfoldable pub step : (default_ttl : ℕ) → Call → List Lease → LeaseAnswer × List Lease
step d (acquire uuid now later seat_id holder owner ttl) rows =
    elim (find (on_seat seat_id) (in_force now rows)) [
      | some l ↦ (
        replied (raise (conflict seat_id l.holder (remaining_seconds l later))),
        in_force now rows,
      )
      | none ↦
          let lease : Lease = record {
            lease_id = uuid;
            seat_id = seat_id;
            holder = holder;
            owner = owner;
            expires_at = later + or_default ttl d;
          } in
          (replied (ok lease), in_force now rows ++ (lease ∷ []))
    ]
step d (renew now later lease_id ttl) rows = elim (find (has_id lease_id) (in_force now rows)) [
  | none ↦ (replied (raise (not_active lease_id)), in_force now rows)
  | some l ↦
      let renewed : Lease = record l { expires_at = later + or_default ttl d } in
      (replied (ok renewed), replace renewed (in_force now rows))
]
step d (release lease_id) rows = (nothing, filter (λ l. not (has_id lease_id l)) rows)
step d (validate now lease_id seat_id) rows = (
  replied (elim (find (has_id lease_id) (in_force now rows)) [
    | none ↦ raise (not_active lease_id)
    | some l ↦ check_seat seat_id l
  ]),
  in_force now rows,
)
step d (get_active_lease now seat_id) rows =
    (active (find (on_seat seat_id) (in_force now rows)), in_force now rows)
step d (expire_leases now) rows = (expired (filter (over now) rows), in_force now rows)

-- The answers to calls one after the other.
unfoldable pub answers : ℕ → List Call → List Lease → List LeaseAnswer
answers d [] rows = []
answers d (call ∷ calls) rows = (step d call rows).0 ∷ answers d calls (step d call rows).1
