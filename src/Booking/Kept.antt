-- ===== src/Booking/Kept.antt =====
-- What each call leaves of a seat that is reserved.
use distributed_tickit_syste.Common.{
  ℕ, ◌≡◌, refl, ◌∙◌, ap, sym, inl, inr, String, true, false, Option, none, some, ite, nat_key,
  string_key, ℕ_discrete, arith, Bool-cases, Option-cases,
}
use distributed_tickit_syste.Common.Dict.{Dict, lookup, insert, lookup-insert}
use distributed_tickit_syste.Locking.{
  Lease, Result, ok, raise, DistributedLeaseManager, renew, validate,
}
use distributed_tickit_syste.Booking.Desk.{
  available, reserved, Seat, free_seat, Desk, is_locked, is_empty, leased, confirmed,
  confirm_validated, confirm_seat, cancel_lock, renew_replied, renew_lease, lease_seat,
  expire_leases_locked,
}
use distributed_tickit_syste.Booking.Expired.{seat_after, lookup-expire_leases_locked}
use distributed_tickit_syste.Booking.Soundness.{IsSound}

-- The seat is in the desk, reserved, as given.
abbrev pub IsReserved : ℕ → Seat → Desk → Type 0
IsReserved k seat d = (lookup k d.seats ≡ some seat) × (seat.state ≡ reserved)

pub ite_other : {A P : Type 0} (same : Dec P) (x y : A) → (P → ⊥) → ite same x y ≡ y
ite_other (yes p) x y other = absurd (other p)
ite_other (no n) x y other = refl

-- Setting a seat leaves the others.
pub lookup-insert_other :
    (k j : ℕ) (new : Seat) (seats : Dict ℕ Seat)
    → (j ≡ k → ⊥)
    → lookup k (insert j new seats) ≡ lookup k seats
lookup-insert_other k j new seats other =
    lookup-insert k j new seats ∙ ite_other (ℕ_discrete j k) (some new) (lookup k seats) other

-- Two seats of the desk that are not in the same state are not the same seat.
pub seats_apart :
    (j k : ℕ) (old seat : Seat) (seats : Dict ℕ Seat)
    → lookup j seats ≡ some old
    → lookup k seats ≡ some seat
    → (old ≡ seat → ⊥)
    → j ≡ k
    → ⊥
seats_apart j k old seat seats at there apart same = apart (cc)

not_reserved : (seat : Seat) → is_locked seat ≡ true → seat.state ≡ reserved → ⊥
not_reserved seat lock e = absurd (cc)

reserved-unlocked : (seat : Seat) → seat.state ≡ reserved → is_locked seat ≡ false
reserved-unlocked seat e = rw (e, is_locked) refl

module _ (k : ℕ) (seat : Seat) where
  seat_after-reserved :
      (now : ℕ) (l : Option Lease)
      → seat.state ≡ reserved
      → seat_after now l (some seat) ≡ some seat
  seat_after-reserved now none e = refl
  seat_after-reserved now (some l) e = ground (arith, reserved-unlocked seat e)

  pub expire_leases_locked-IsReserved :
      (now : ℕ) (d : Desk)
      → IsSound d
      → IsReserved k seat d
      → IsReserved k seat (expire_leases_locked now d)
  expire_leases_locked-IsReserved now d v (at, e) = (
    lookup-expire_leases_locked now d k v.consistent
        ∙ rw at (seat_after-reserved now (lookup k d.lease_manager.leases_by_seat) e),
    e,
  )

  -- Setting a seat that is locked.
  set_locked :
      (j : ℕ) (old new : Seat) (seats : Dict ℕ Seat)
      → lookup j seats ≡ some old
      → is_locked old ≡ true
      → lookup k seats ≡ some seat
      → seat.state ≡ reserved
      → lookup k (insert j new seats) ≡ some seat
  set_locked j old new seats at lock there e =
      lookup-insert_other k j new seats (
        seats_apart j k old seat seats at there
          (λ same. not_reserved seat (sym (ap is_locked same) ∙ lock) e))
      ∙ there

  -- A lease changes a seat that was available.
  pub lease_seat-IsReserved :
      (uuid : String) (now later j : ℕ) (requester server_id : String) (d : Desk) (old : Seat)
      → lookup j d.seats ≡ some old
      → old.state ≡ available
      → IsReserved k seat d
      → IsReserved k seat (lease_seat uuid now later j requester server_id d).1
  unfolding lease_seat
  lease_seat-IsReserved uuid now later j requester server_id d old at free (there, e) =
      (by_reply (lease_seat uuid now later j requester server_id d).0, e)
    where
      apart : j ≡ k → ⊥
      apart = seats_apart j k old seat d.seats at there (λ same. absurd (cc))

      by_reply :
          (result : Result Lease)
          → lookup k (elim result as (λ _. Dict ℕ Seat) [
            | raise e ↦ d.seats
            | ok lease ↦ insert j (leased lease requester server_id) d.seats
          ])
            ≡ some seat
      by_reply (ok lease) =
          lookup-insert_other k j (leased lease requester server_id) d.seats apart ∙ there
      by_reply (raise err) = there

  confirm_validated-IsReserved :
      (j : ℕ) (old : Seat) (reply : Result Lease) (manager : DistributedLeaseManager) (d : Desk)
      → lookup j d.seats ≡ some old
      → is_locked old ≡ true
      → IsReserved k seat d
      → IsReserved k seat (confirm_validated j old (reply, manager) d).1
  confirm_validated-IsReserved j old (ok l) manager d at lock (there, e) =
      (set_locked j old (confirmed old) d.seats at lock there e, e)
  confirm_validated-IsReserved j old (raise err) manager d at lock keeps = keeps

  pub confirm_seat-IsReserved :
      (now j : ℕ) (d : Desk) → IsReserved k seat d → IsReserved k seat (confirm_seat now j d).1
  unfolding confirm_seat
  confirm_seat-IsReserved now j d keeps = elim (Option-cases (lookup j d.seats)) [
    | inl missing ↦ rw (missing, confirm_seat) keeps
    | inr (old, at) ↦ elim (Bool-cases (is_locked old)) [
      | inr e ↦ rw (at, confirm_seat, e) keeps
      | inl e ↦
          rw (at, confirm_seat, e)
            (confirm_validated-IsReserved j old _
              (validate now old.lease_id (some j) d.lease_manager).1 d at e keeps)
    ]
  ]

  pub cancel_lock-IsReserved :
      (j : ℕ) (d : Desk) → IsReserved k seat d → IsReserved k seat (cancel_lock j d).1
  unfolding cancel_lock
  cancel_lock-IsReserved j d keeps = elim (Option-cases (lookup j d.seats)) [
    | inl missing ↦ rw (missing, cancel_lock) keeps
    | inr (old, at) ↦ elim (Bool-cases (is_locked old)) [
      | inr e ↦ rw (at, cancel_lock, e) keeps
      | inl e ↦
          rw (at, cancel_lock, e) (set_locked j old free_seat d.seats at e keeps.0 keeps.1, keeps.1)
    ]
  ]

  renew_replied-IsReserved :
      (asked j : ℕ) (old : Seat) (reply : Result Lease) (manager : DistributedLeaseManager)
      (d : Desk)
      → lookup j d.seats ≡ some old
      → is_locked old ≡ true
      → IsReserved k seat d
      → IsReserved k seat (renew_replied asked j old (reply, manager) d).1
  renew_replied-IsReserved asked j old (ok l) manager d at lock (there, e) =
      (set_locked j old (record old { expires_at = l.expires_at }) d.seats at lock there e, e)
  renew_replied-IsReserved asked j old (raise err) manager d at lock keeps = keeps

  pub renew_lease-IsReserved :
      (now later asked j : ℕ) (d : Desk)
      → IsReserved k seat d
      → IsReserved k seat (renew_lease now later asked j d).1
  unfolding renew_lease
  renew_lease-IsReserved now later asked j d keeps = elim (Option-cases (lookup j d.seats)) [
    | inl missing ↦ rw (missing, renew_lease) keeps
    | inr (old, at) ↦ elim (Bool-cases (is_locked old)) [
      | inr e ↦ rw (at, renew_lease, e) keeps
      | inl e ↦ elim (Bool-cases (is_empty old.lease_id)) [
        | inl unnamed ↦ rw (at, renew_lease, e, unnamed) keeps
        | inr named ↦
            rw (at, renew_lease, e, named)
              (renew_replied-IsReserved asked j old _
                (renew now later old.lease_id none d.lease_manager).1 d at e keeps)
      ]
    ]
  ]
