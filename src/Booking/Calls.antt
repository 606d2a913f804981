-- ===== src/Booking/Calls.antt =====
-- The calls on a booked seat keep the desk sound: confirm, cancel, renew and reset.
use distributed_tickit_syste.Common.{
  ℕ, ◌+◌, ◌≡◌, refl, ◌∙◌, ap, sym, String, true, false, Option, none, some, ite, nat_key,
  string_key, ℕ_discrete, arith, Bool-cases, Option-cases, inl, inr,
}
use distributed_tickit_syste.Common.Dict.{lookup, insert, lookup-insert}
use distributed_tickit_syste.Locking.{
  Lease, Result, ok, raise, DistributedLeaseManager, after_expiry, renew, release, validate,
  check_seat, store_lease, or_default,
}
use distributed_tickit_syste.Locking
use distributed_tickit_syste.Locking.Expiry.{after_expiry-IsConsistent}
use distributed_tickit_syste.Locking.Invariant.{
  init-IsConsistent, renew-IsConsistent, release-IsConsistent, lookup_seat-release,
  lookup_seat-release_absent,
}
use distributed_tickit_syste.Booking.Desk.{
  Seat, free_seat, Desk, is_locked, is_empty, confirmed, confirm_validated, confirm_seat,
  cancel_lock, renew_replied, renew_lease, reset,
}
use distributed_tickit_syste.Booking.Soundness.{
  Backs, IsSound, after_expiry-backed, backed_by, release-frees,
}

-- The desk with another lease manager, or another seat.
abbrev pub with_manager : DistributedLeaseManager → Desk → Desk
with_manager manager d = record d { lease_manager = manager }

abbrev pub with_seat : ℕ → Seat → Desk → Desk
with_seat k seat d = record d { seats = insert k seat d.seats }

Backs-none_if :
    {P : Type 0} (same : Dec P) (l : Option Lease) (seat : Option Seat)
    → Backs l seat
    → Backs (ite same none l) seat
Backs-none_if (yes p) l seat b = tt
Backs-none_if (no n) l seat b = b

Backs-set :
    {P : Type 0} (same : Dec P) (l : Option Lease) (before : Option Seat) (seat : Seat)
    → (P → l ≡ none)
    → Backs l before
    → Backs l (ite same (some seat) before)
Backs-set (yes p) l before seat free b = rw (free p) tt
Backs-set (no n) l before seat free b = b

Backs-renamed :
    (l : Option Lease) (old seat : Seat)
    → is_locked seat ≡ is_locked old
    → seat.lease_id ≡ old.lease_id
    → Backs l (some old)
    → Backs l (some seat)
Backs-renamed none old seat lock same b = tt
Backs-renamed (some l) old seat lock same b = (lock ∙ b.0, same ∙ b.1, b.2)

Backs-same :
    {P : Type 0} (is_k : Dec P) (l : Option Lease) (before : Option Seat) (old seat : Seat)
    → (P → before ≡ some old)
    → is_locked seat ≡ is_locked old
    → seat.lease_id ≡ old.lease_id
    → Backs l before
    → Backs l (ite is_k (some seat) before)
Backs-same (yes p) l before old seat at lock same b =
    Backs-renamed l old seat lock same (rw (at p) at b)
Backs-same (no n) l before old seat at lock same b = b

Backs-extended :
    (l renewed : Lease) (seat : Option Seat)
    → renewed.lease_id ≡ l.lease_id
    → Backs (some l) seat
    → Backs (some renewed) seat
Backs-extended l renewed none same b = b
Backs-extended l renewed (some seat) same b = (b.0, b.1 ∙ sym same, rw same b.2)

Backs-stored :
    {P : Type 0} (same : Dec P) (held : Option Lease) (seat : Option Seat) (l renewed : Lease)
    → (P → held ≡ some l)
    → renewed.lease_id ≡ l.lease_id
    → Backs held seat
    → Backs (ite same (some renewed) held) seat
Backs-stored (yes p) held seat l renewed at named b =
    Backs-extended l renewed seat named (rw (at p) at b)
Backs-stored (no n) held seat l renewed at named b = b

module _ (d : Desk) (v : IsSound d) where
  pub after_expiry-IsSound : (now : ℕ) → IsSound (with_manager (after_expiry now d.lease_manager) d)
  after_expiry-IsSound now = record {
    consistent = after_expiry-IsConsistent now d.lease_manager v.consistent;
    backed = after_expiry-backed d v now;
  }

  release-IsSound : (i : String) → IsSound (with_manager (release i d.lease_manager) d)
  release-IsSound i = record {
    consistent = release-IsConsistent d.lease_manager v.consistent i;
    backed = λ k. elim (Option-cases (lookup i d.lease_manager.leases_by_id)) [
      | inl gone ↦ rw (lookup_seat-release_absent d.lease_manager v.consistent i gone) (v.backed k)
      | inr (l, there) ↦
          rw (lookup_seat-release d.lease_manager v.consistent i k l there)
            (Backs-none_if (ℕ_discrete l.seat_id k) _ _ (v.backed k))
    ];
  }

  -- A seat without a lease may become anything.
  unleased-IsSound :
      (k : ℕ) (seat : Seat)
      → lookup k d.lease_manager.leases_by_seat ≡ none
      → IsSound (with_seat k seat d)
  unleased-IsSound k seat free = record {
    consistent = v.consistent;
    backed = λ j. rw (lookup-insert j k seat d.seats) (
        Backs-set (ℕ_discrete k j) _ _ seat
          (λ same. ap (λ i. lookup i d.lease_manager.leases_by_seat) (sym same) ∙ free)
          (v.backed j));
  }

  -- The seat names the same lease as before.
  same_lease-IsSound :
      (k : ℕ) (old seat : Seat)
      → lookup k d.seats ≡ some old
      → is_locked seat ≡ is_locked old
      → seat.lease_id ≡ old.lease_id
      → IsSound (with_seat k seat d)
  same_lease-IsSound k old seat at lock same = record {
    consistent = v.consistent;
    backed = λ j. rw (lookup-insert j k seat d.seats) (
        Backs-same (ℕ_discrete k j) _ _ old seat (λ e. ap (λ i. lookup i d.seats) (sym e) ∙ at) lock
          same (v.backed j));
  }

  renew-IsSound :
      (now later : ℕ) (i : String) (ttl : Option ℕ)
      → IsSound (with_manager (renew now later i ttl d.lease_manager).1 d)
  unfolding renew
  renew-IsSound now later i ttl = record {
    consistent = renew-IsConsistent d.lease_manager v.consistent now later i ttl;
    backed = λ k.
        let m' = after_expiry now d.lease_manager in
        let c' = after_expiry-IsConsistent now d.lease_manager v.consistent in
        elim (Option-cases (lookup i m'.leases_by_id)) [
          | inl gone ↦ rw (gone, renew) (after_expiry-backed d v now k)
          | inr (l, there) ↦
              rw (there, renew, lookup-insert k l.seat_id (renewed_at l) m'.leases_by_seat)
                (Backs-stored (ℕ_discrete l.seat_id k) _ _ l (renewed_at l)
                  (λ e. ap (λ j. lookup j m'.leases_by_seat) (sym e) ∙ (c'.id_entry i l there).1)
                  refl (after_expiry-backed d v now k))
        ];
  }
    where
      renewed_at : Lease → Lease
      renewed_at l = record l {
        expires_at = later + or_default ttl (after_expiry now d.lease_manager).default_ttl_seconds;
      }

-- Releasing the lease of a seat, which then may become anything.
pub released-IsSound :
    (d : Desk) (k : ℕ) (old seat : Seat)
    → IsSound d
    → lookup k d.seats ≡ some old
    → IsSound (with_seat k seat (with_manager (release old.lease_id d.lease_manager) d))
released-IsSound d k old seat v at =
    unleased-IsSound _ (release-IsSound d v old.lease_id) k seat (release-frees d v k old at)

pub manager-validate :
    (now : ℕ) (i : String) (seat_id : Option ℕ) (m : DistributedLeaseManager)
    → (validate now i seat_id m).1 ≡ after_expiry now m
unfolding validate
manager-validate now i seat_id m =
    elim (Option-cases (lookup i (after_expiry now m).leases_by_id)) [
      | inl gone ↦ rw (gone, validate) refl
      | inr (l, there) ↦ rw (there, validate) refl
    ]

confirm_validated-IsSound :
    (k : ℕ) (seat : Seat) (reply : Result Lease) (manager : DistributedLeaseManager) (d : Desk)
    → IsSound (with_manager manager d)
    → lookup k d.seats ≡ some seat
    → IsSound (confirm_validated k seat (reply, manager) d).1
confirm_validated-IsSound k seat (ok l) manager d v at =
    released-IsSound (with_manager manager d) k seat (confirmed seat) v at
confirm_validated-IsSound k seat (raise e) manager d v at = v

pub confirm_seat-IsSound : (now k : ℕ) (d : Desk) → IsSound d → IsSound (confirm_seat now k d).1
unfolding confirm_seat
confirm_seat-IsSound now k d v = elim (Option-cases (lookup k d.seats)) [
  | inl missing ↦ rw (missing, confirm_seat) v
  | inr (seat, at) ↦ elim (Bool-cases (is_locked seat)) [
    | inr e ↦ rw (at, confirm_seat, e) v
    | inl e ↦
        rw (at, confirm_seat, e)
          (confirm_validated-IsSound k seat _
            (validate now seat.lease_id (some k) d.lease_manager).1 d
            (rw (manager-validate now seat.lease_id (some k) d.lease_manager)
              (after_expiry-IsSound d v now))
            at)
  ]
]

-- A seat that names no lease has none.
no_lease :
    (k : ℕ) (seat : Seat) (d : Desk)
    → IsSound d
    → lookup k d.seats ≡ some seat
    → is_empty seat.lease_id ≡ true
    → lookup k d.lease_manager.leases_by_seat ≡ none
no_lease k seat d v at unnamed = elim (Option-cases (lookup k d.lease_manager.leases_by_seat)) [
  | inl free ↦ free
  | inr (l, held) ↦
      let (same, named, lock) = backed_by d v k seat l at held in
      let both : true ≡ false = sym unnamed ∙ ap is_empty same ∙ named in
      absurd (ground (arith, both))
]

pub cancel_lock-IsSound : (k : ℕ) (d : Desk) → IsSound d → IsSound (cancel_lock k d).1
unfolding cancel_lock
cancel_lock-IsSound k d v = elim (Option-cases (lookup k d.seats)) [
  | inl missing ↦ rw (missing, cancel_lock) v
  | inr (seat, at) ↦ elim (Bool-cases (is_locked seat)) [
    | inr e ↦ rw (at, cancel_lock, e) v
    | inl e ↦ elim (Bool-cases (is_empty seat.lease_id)) [
      | inl unnamed ↦
          rw (at, cancel_lock, e, unnamed)
            (unleased-IsSound d v k free_seat (no_lease k seat d v at unnamed))
      | inr named ↦ rw (at, cancel_lock, e, named) (released-IsSound d k seat free_seat v at)
    ]
  ]
]

renew_replied-IsSound :
    (asked k : ℕ) (seat : Seat) (reply : Result Lease) (manager : DistributedLeaseManager)
    (d : Desk)
    → IsSound (with_manager manager d)
    → lookup k d.seats ≡ some seat
    → IsSound (renew_replied asked k seat (reply, manager) d).1
renew_replied-IsSound asked k seat (ok renewed) manager d v at =
    same_lease-IsSound (with_manager manager d) v k seat
      (record seat { expires_at = renewed.expires_at }) at refl refl
renew_replied-IsSound asked k seat (raise e) manager d v at = v

pub renew_lease-IsSound :
    (now later asked k : ℕ) (d : Desk) → IsSound d → IsSound (renew_lease now later asked k d).1
unfolding renew_lease
renew_lease-IsSound now later asked k d v = elim (Option-cases (lookup k d.seats)) [
  | inl missing ↦ rw (missing, renew_lease) v
  | inr (seat, at) ↦ elim (Bool-cases (is_locked seat)) [
    | inr e ↦ rw (at, renew_lease, e) v
    | inl e ↦ elim (Bool-cases (is_empty seat.lease_id)) [
      | inl unnamed ↦ rw (at, renew_lease, e, unnamed) v
      | inr named ↦
          rw (at, renew_lease, e, named)
            (renew_replied-IsSound asked k seat _
              (renew now later seat.lease_id none d.lease_manager).1 d
              (renew-IsSound d v now later seat.lease_id none) at)
    ]
  ]
]

pub reset-IsSound : (d : Desk) → IsSound (reset d)
unfolding reset lookup Locking.init
reset-IsSound d = record { consistent = init-IsConsistent 30000; backed = λ k. tt }
