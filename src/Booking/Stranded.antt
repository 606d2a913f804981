-- ===== src/Booking/Stranded.antt =====
-- What each call leaves of a seat that is locked, although it has no lease.
use distributed_tickit_syste.Common.{
  ℕ, ◌+◌, ◌≡◌, refl, ◌∙◌, ap, ◌⊎◌, inl, inr, String, true, Option, none, some, nat_key, string_key,
  ℕ_discrete, arith, Option-cases,
}
use distributed_tickit_syste.Common.Dict.{Dict, lookup, insert, lookup-insert}
use distributed_tickit_syste.Locking.{
  Lease, LeaseError, Result, ok, raise, DistributedLeaseManager, after_expiry, acquire, renew,
  release, validate, or_default, not_active, wrong_seat,
}
use distributed_tickit_syste.Locking.Expiry.{
  IsConsistent, live, after_expiry-IsConsistent, lookup_seat-after_expiry,
}
use distributed_tickit_syste.Locking.Invariant.{lookup_seat-release, lookup_seat-release_absent}
use distributed_tickit_syste.Locking.Exclusion.{acquire_lem}
use distributed_tickit_syste.Booking.Desk.{
  available, Seat, Desk, is_locked, leased, lease_seat, expire_leases_locked,
}
use distributed_tickit_syste.Booking.Expired.{
  seat_after, lookup-expire_leases_locked, leases-expire_leases_locked,
}
use distributed_tickit_syste.Booking.Soundness.{IsSound}
use distributed_tickit_syste.Booking.Kept.{ite_other, lookup-insert_other, seats_apart}

-- A seat without a lease gets none, unless it is leased itself.
module _ (m : DistributedLeaseManager) (c : IsConsistent m) (k : ℕ)
    (free : lookup k m.leases_by_seat ≡ none) where
  pub after_expiry_free : (now : ℕ) → lookup k (after_expiry now m).leases_by_seat ≡ none
  after_expiry_free now = lookup_seat-after_expiry now m c k ∙ ap (live now) free

  -- No lease that is found by its id is on the seat.
  not_on : (i : String) (l : Lease) → lookup i m.leases_by_id ≡ some l → l.seat_id ≡ k → ⊥
  not_on i l there same = let held = (c.id_entry i l there).1 in absurd (cc)

  pub release_free : (i : String) → lookup k (release i m).leases_by_seat ≡ none
  release_free i = elim (Option-cases (lookup i m.leases_by_id)) [
    | inl gone ↦ ap (lookup k) (lookup_seat-release_absent m c i gone) ∙ free
    | inr (l, there) ↦ ground (arith, lookup_seat-release m c i k l there)
  ]

  acquire_free :
      (uuid : String) (now later j : ℕ) (holder owner : String) (ttl : Option ℕ)
      → (j ≡ k → ⊥)
      → lookup k (acquire uuid now later j holder owner ttl m).1.leases_by_seat ≡ none
  acquire_free uuid now later j holder owner ttl other =
      let (reply, held) = acquire_lem m c uuid now later j holder owner ttl k in
      ground (arith, held, lookup_seat-after_expiry now m c k)

pub renew_free :
    (m : DistributedLeaseManager) (k now later : ℕ) (i : String) (ttl : Option ℕ)
    → IsConsistent m
    → lookup k m.leases_by_seat ≡ none
    → lookup k (renew now later i ttl m).1.leases_by_seat ≡ none
unfolding renew
renew_free m k now later i ttl c free =
    let m' = after_expiry now m in
    let c' = after_expiry-IsConsistent now m c in
    let free' = after_expiry_free m c k free now in
    elim (Option-cases (lookup i m'.leases_by_id)) [
      | inl gone ↦ rw (gone, renew) free'
      | inr (l, there) ↦
          let other = not_on m' c' k free' i l there in
          rw (there, renew, lookup-insert k l.seat_id _ m'.leases_by_seat)
            (ite_other (ℕ_discrete l.seat_id k)
                (some (record l { expires_at = later + or_default ttl m'.default_ttl_seconds }))
                (lookup k m'.leases_by_seat) other
              ∙ free')
    ]

-- A lease cannot be validated for a seat that has none.
pub validate_refused :
    (m : DistributedLeaseManager) (k now : ℕ) (i : String)
    → IsConsistent m
    → lookup k (after_expiry now m).leases_by_seat ≡ none
    → (e : LeaseError) × ((validate now i (some k) m).0 ≡ raise e)
unfolding validate
validate_refused m k now i c free =
    let m' = after_expiry now m in
    let c' = after_expiry-IsConsistent now m c in
    elim (Option-cases (lookup i m'.leases_by_id)) [
      | inl gone ↦ (not_active i, rw (gone, validate) refl)
      | inr (l, there) ↦
          let other = not_on m' c' k free i l there in
          (
            wrong_seat l.lease_id k,
            rw (there, validate)
                (ite_other (ℕ_discrete l.seat_id k) (ok l) (raise (wrong_seat l.lease_id k)) other),
          )
    ]

-- The seat is locked, and there is no lease on it.
abbrev pub IsStranded : ℕ → Desk → Type 0
IsStranded k d =
    ((seat : Seat) × (lookup k d.seats ≡ some seat) × (is_locked seat ≡ true))
    × (lookup k d.lease_manager.leases_by_seat ≡ none)

-- Setting another seat, or this one to a locked one, leaves it locked.
pub set_keeps_lock :
    (k j : ℕ) (new : Seat) (seats : Dict ℕ Seat)
    → ((j ≡ k → ⊥) ⊎ (is_locked new ≡ true))
    → (seat : Seat) × (lookup k seats ≡ some seat) × (is_locked seat ≡ true)
    → (seat : Seat) × (lookup k (insert j new seats) ≡ some seat) × (is_locked seat ≡ true)
set_keeps_lock k j new seats (inl other) (seat, at, lock) =
    (seat, lookup-insert_other k j new seats other ∙ at, lock)
set_keeps_lock k j new seats (inr locks) (seat, at, lock) = elim (ℕ_discrete j k) [
  | yes e ↦ (new, ground (arith, lookup-insert k j new seats), locks)
  | no n ↦ (seat, lookup-insert_other k j new seats n ∙ at, lock)
]

module _ (d : Desk) (v : IsSound d) (k : ℕ) (stranded : IsStranded k d) where
  pub expire_leases_locked-IsStranded : (now : ℕ) → IsStranded k (expire_leases_locked now d)
  expire_leases_locked-IsStranded now =
      let ((seat, at, lock), free) = stranded in
      (
        (
          seat,
          lookup-expire_leases_locked now d k v.consistent
              ∙ ap (λ l. seat_after now l (lookup k d.seats)) free
              ∙ at,
          lock,
        ),
        ap (λ m. lookup k m.leases_by_seat) (leases-expire_leases_locked now d)
            ∙ after_expiry_free d.lease_manager v.consistent k free now,
      )

  pub lease_seat-IsStranded :
      (uuid : String) (now later j : ℕ) (requester server_id : String) (old : Seat)
      → lookup j d.seats ≡ some old
      → old.state ≡ available
      → IsStranded k (lease_seat uuid now later j requester server_id d).1
  unfolding lease_seat
  lease_seat-IsStranded uuid now later j requester server_id old at open_seat = (
    by_reply (lease_seat uuid now later j requester server_id d).0,
    acquire_free d.lease_manager v.consistent k stranded.1 uuid now later j server_id requester
        (some 30000) other,
  )
    where
      other : j ≡ k → ⊥
      other =
          let (seat, there, lock) = stranded.0 in
          seats_apart j k old seat d.seats at there (λ same. absurd (cc))

      by_reply :
          (result : Result Lease)
          → (seat : Seat) × (lookup k (elim result as (λ _. Dict ℕ Seat) [
            | raise e ↦ d.seats
            | ok lease ↦ insert j (leased lease requester server_id) d.seats
          ])
              ≡ some seat)
            × (is_locked seat ≡ true)
      by_reply (ok lease) =
          set_keeps_lock k j (leased lease requester server_id) d.seats (inl other) stranded.0
      by_reply (raise err) = stranded.0
