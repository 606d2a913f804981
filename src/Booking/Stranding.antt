-- ===== src/Booking/Stranding.antt =====
-- How a seat comes to be locked without a lease, and what confirm, cancel and renew leave of it.
use distributed_tickit_syste.Common.{
  ℕ, ◌≡◌, refl, ◌∙◌, ap, inl, inr, true, none, some, nat_key, string_key, ℕ_discrete, arith,
  Bool-cases, Option-cases, leb,
}
use distributed_tickit_syste.Common.Dict.{lookup}
use distributed_tickit_syste.Locking.{
  Lease, LeaseError, Result, ok, raise, DistributedLeaseManager, after_expiry, renew, validate,
}
use distributed_tickit_syste.Locking.Expiry.{
  IsConsistent, after_expiry-IsConsistent, lookup_seat-after_expiry,
}
use distributed_tickit_syste.Booking.Desk.{
  Seat, free_seat, Desk, is_locked, is_empty, confirmed, confirm_validated, confirm_seat,
  cancel_lock, renew_replied, renew_lease, lease_expired,
}
use distributed_tickit_syste.Booking.Soundness.{IsSound}
use distributed_tickit_syste.Booking.Calls.{manager-validate}
use distributed_tickit_syste.Booking.Stranded.{
  IsStranded, after_expiry_free, release_free, renew_free, validate_refused, set_keeps_lock,
}

-- The seat is locked, whatever the leases are.
abbrev IsLockedAt : ℕ → Desk → Type 0
IsLockedAt k d = (seat : Seat) × (lookup k d.seats ≡ some seat) × (is_locked seat ≡ true)

confirm_validated-raise :
    (j : ℕ) (old : Seat) (reply : Result Lease) (e : LeaseError) (manager : DistributedLeaseManager)
    (d : Desk)
    → reply ≡ raise e
    → confirm_validated j old (reply, manager) d
      ≡ (lease_expired, record d { lease_manager = manager })
confirm_validated-raise j old reply e manager d same = rw same refl

confirm_validated-IsLockedAt :
    (k j : ℕ) (old : Seat) (reply : Result Lease) (manager : DistributedLeaseManager) (d : Desk)
    → (j ≡ k → ⊥)
    → IsConsistent manager
    → lookup k manager.leases_by_seat ≡ none
    → IsLockedAt k d
    → IsStranded k (confirm_validated j old (reply, manager) d).1
confirm_validated-IsLockedAt k j old (ok l) manager d other c free lock = (
  set_keeps_lock k j (confirmed old) d.seats (inl other) lock,
  release_free manager c k free old.lease_id,
)
confirm_validated-IsLockedAt k j old (raise e) manager d other c free lock = (lock, free)

renew_replied-IsLockedAt :
    (k asked j : ℕ) (old : Seat) (reply : Result Lease) (manager : DistributedLeaseManager)
    (d : Desk)
    → is_locked old ≡ true
    → lookup k manager.leases_by_seat ≡ none
    → IsLockedAt k d
    → IsStranded k (renew_replied asked j old (reply, manager) d).1
renew_replied-IsLockedAt k asked j old (ok l) manager d locks free lock =
    (set_keeps_lock k j (record old { expires_at = l.expires_at }) d.seats (inr locks) lock, free)
renew_replied-IsLockedAt k asked j old (raise e) manager d locks free lock = (lock, free)

module _ (d : Desk) (v : IsSound d) (k now : ℕ) where
  abbrev Freed : Type 0
  Freed = lookup k (after_expiry now d.lease_manager).leases_by_seat ≡ none

  -- A seat that is locked, and on which no lease is left at `now`, cannot be confirmed: the lease is
  -- said to be over, and the seat stays locked.
  refused :
      (seat : Seat)
      → lookup k d.seats ≡ some seat
      → is_locked seat ≡ true
      → Freed
      → ((confirm_seat now k d).0 ≡ lease_expired) × IsStranded k (confirm_seat now k d).1
  unfolding confirm_seat
  refused seat at lock free =
      let m = d.lease_manager in
      let (e, refuses) = validate_refused m k now seat.lease_id v.consistent free in
      let manager = manager-validate now seat.lease_id (some k) m in
      let whole =
        confirm_validated-raise k seat (validate now seat.lease_id (some k) m).0 e
          (validate now seat.lease_id (some k) m).1 d refuses in
      rw (at, confirm_seat, lock, whole)
        (refl, ((seat, at, lock), ap (λ m'. lookup k m'.leases_by_seat) manager ∙ free))

  -- A seat is confirmed once its lease is over, but before the expiry is run: the reply is
  -- `lease_expired`, and the seat is left locked with no lease, so that no expiry returns it.
  pub confirm_seat-expired :
      (seat : Seat) (l : Lease)
      → lookup k d.seats ≡ some seat
      → is_locked seat ≡ true
      → lookup k d.lease_manager.leases_by_seat ≡ some l
      → leb l.expires_at now ≡ true
      → ((confirm_seat now k d).0 ≡ lease_expired) × IsStranded k (confirm_seat now k d).1
  confirm_seat-expired seat l at lock held old =
      refused seat at lock
        (ground (arith, lookup_seat-after_expiry now d.lease_manager v.consistent k))

module _ (d : Desk) (v : IsSound d) (k : ℕ) (stranded : IsStranded k d) where
  pub confirm_seat-IsStranded : (now j : ℕ) → IsStranded k (confirm_seat now j d).1
  unfolding confirm_seat
  confirm_seat-IsStranded now j =
      let m = d.lease_manager in
      let free = after_expiry_free m v.consistent k stranded.1 now in
      elim (ℕ_discrete j k) [
        | yes same ↦
            let (seat, at, lock) = stranded.0 in rw same (refused d v k now seat at lock free).1
        | no other ↦ elim (Option-cases (lookup j d.seats)) [
          | inl missing ↦ rw (missing, confirm_seat) stranded
          | inr (old, at) ↦ elim (Bool-cases (is_locked old)) [
            | inr e ↦ rw (at, confirm_seat, e) stranded
            | inl e ↦
                let manager = manager-validate now old.lease_id (some j) m in
                rw (at, confirm_seat, e)
                  (confirm_validated-IsLockedAt k j old _ (validate now old.lease_id (some j) m).1 d
                    other (rw manager (after_expiry-IsConsistent now m v.consistent))
                    (rw manager free) stranded.0)
          ]
        ]
      ]

  pub cancel_lock-IsStranded : (j : ℕ) → (j ≡ k → ⊥) → IsStranded k (cancel_lock j d).1
  unfolding cancel_lock
  cancel_lock-IsStranded j other = elim (Option-cases (lookup j d.seats)) [
    | inl missing ↦ rw (missing, cancel_lock) stranded
    | inr (old, at) ↦ elim (Bool-cases (is_locked old)) [
      | inr e ↦ rw (at, cancel_lock, e) stranded
      | inl e ↦
          let kept = set_keeps_lock k j free_seat d.seats (inl other) stranded.0 in
          elim (Bool-cases (is_empty old.lease_id)) [
            | inl unnamed ↦ rw (at, cancel_lock, e, unnamed) (kept, stranded.1)
            | inr named ↦
                rw (at, cancel_lock, e, named)
                  (kept, release_free d.lease_manager v.consistent k stranded.1 old.lease_id)
          ]
    ]
  ]

  pub renew_lease-IsStranded :
      (now later asked j : ℕ) → IsStranded k (renew_lease now later asked j d).1
  unfolding renew_lease
  renew_lease-IsStranded now later asked j = elim (Option-cases (lookup j d.seats)) [
    | inl missing ↦ rw (missing, renew_lease) stranded
    | inr (old, at) ↦ elim (Bool-cases (is_locked old)) [
      | inr e ↦ rw (at, renew_lease, e) stranded
      | inl e ↦ elim (Bool-cases (is_empty old.lease_id)) [
        | inl unnamed ↦ rw (at, renew_lease, e, unnamed) stranded
        | inr named ↦
            rw (at, renew_lease, e, named)
              (renew_replied-IsLockedAt k asked j old _
                (renew now later old.lease_id none d.lease_manager).1 d e
                (renew_free d.lease_manager k now later old.lease_id none v.consistent stranded.1)
                stranded.0)
      ]
    ]
  ]
