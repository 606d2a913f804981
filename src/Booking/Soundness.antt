-- ===== src/Booking/Soundness.antt =====
-- Every lease stands behind a locked seat, whatever is called.
use distributed_tickit_syste.Common.{
  ℕ, ◌≡◌, refl, ◌∙◌, ap, String, true, false, Option, none, some, ite, nat_key, string_key,
  ℕ_discrete, arith, Bool-cases, Option-cases, inl, inr, leb,
}
use distributed_tickit_syste.Common.Dict.{lookup, lookup-insert}
use distributed_tickit_syste.Locking.{Lease, after_expiry, release}
use distributed_tickit_syste.Locking.Expiry.{
  IsConsistent, live, after_expiry-IsConsistent, lookup_seat-after_expiry,
}
use distributed_tickit_syste.Locking.Invariant.{
  acquire-IsConsistent, lookup_seat-release, lookup_seat-release_absent,
}
use distributed_tickit_syste.Locking.Exclusion.{acquire_lem, acquire_reply, granted}
use distributed_tickit_syste.Booking.Desk.{
  Seat, Desk, is_locked, is_empty, leased, expire_leases_locked, lease_seat,
}
use distributed_tickit_syste.Booking.Expired.{
  seat_after, lookup-expire_leases_locked, leases-expire_leases_locked,
}

-- The lease on a seat is the one that the locked seat names, and its id is not empty.
abbrev pub Backs : Option Lease → Option Seat → Type 0
Backs none seat = Unit
Backs (some l) none = ⊥
Backs (some l) (some seat) =
    (is_locked seat ≡ true) × (seat.lease_id ≡ l.lease_id) × (is_empty l.lease_id ≡ false)

pub record IsSound (d : Desk) : Type 0 where
  pub consistent : IsConsistent d.lease_manager
  pub backed : (k : ℕ) → Backs (lookup k d.lease_manager.leases_by_seat) (lookup k d.seats)

pub Backs-live :
    (now : ℕ) (l : Option Lease) (seat : Option Seat) → Backs l seat → Backs (live now l) seat
Backs-live now none seat b = tt
Backs-live now (some l) none b = absurd b
Backs-live now (some l) (some seat) b = elim (Bool-cases (leb l.expires_at now)) [
  | inl e ↦ rw e tt
  | inr e ↦ rw e b
]

Backs-seat_after :
    (now : ℕ) (l : Option Lease) (seat : Option Seat)
    → Backs l seat
    → Backs (live now l) (seat_after now l seat)
Backs-seat_after now none seat b = tt
Backs-seat_after now (some l) none b = absurd b
Backs-seat_after now (some l) (some seat) b = elim (Bool-cases (leb l.expires_at now)) [
  | inl e ↦ rw e tt
  | inr e ↦ rw e b
]

pub Backs-ite :
    {P : Type 0} (same : Dec P) (l l' : Option Lease) (seat seat' : Option Seat)
    → Backs l seat
    → Backs l' seat'
    → Backs (ite same l l') (ite same seat seat')
Backs-ite (yes p) l l' seat seat' b b' = b
Backs-ite (no n) l l' seat seat' b b' = b'

module _ (d : Desk) (v : IsSound d) where
  pub expire_leases_locked-IsSound : (now : ℕ) → IsSound (expire_leases_locked now d)
  expire_leases_locked-IsSound now = record {
    consistent =
        rw (leases-expire_leases_locked now d)
          (after_expiry-IsConsistent now d.lease_manager v.consistent);
    backed = λ k.
        rw
          (
            leases-expire_leases_locked now d,
            lookup_seat-after_expiry now d.lease_manager v.consistent k,
            lookup-expire_leases_locked now d k v.consistent,
          )
          (Backs-seat_after now _ _ (v.backed k));
  }

  -- Dropping leases that are over leaves the seats backed.
  pub after_expiry-backed :
      (now k : ℕ)
      → Backs (lookup k (after_expiry now d.lease_manager).leases_by_seat) (lookup k d.seats)
  after_expiry-backed now k =
      rw (lookup_seat-after_expiry now d.lease_manager v.consistent k)
        (Backs-live now _ _ (v.backed k))

  pub lease_seat-IsSound :
      (uuid : String) (now later seat_id : ℕ) (requester server_id : String)
      → lookup uuid d.lease_manager.leases_by_id ≡ none
      → is_empty uuid ≡ false
      → IsSound (lease_seat uuid now later seat_id requester server_id d).1
  unfolding lease_seat
  lease_seat-IsSound uuid now later seat_id requester server_id fresh named = record {
    consistent =
        acquire-IsConsistent d.lease_manager v.consistent uuid now later seat_id server_id requester
          (some 30000) fresh;
    backed = λ k.
        let (reply, held) =
          acquire_lem d.lease_manager v.consistent uuid now later seat_id server_id requester
            (some 30000) k in
        let new = granted uuid later seat_id server_id requester (some 30000) d.lease_manager in
        let before = Backs-live now _ _ (v.backed k) in
        elim (Option-cases (live now (lookup seat_id d.lease_manager.leases_by_seat))) [
          | inl free ↦
              let given = reply ∙ ap (acquire_reply seat_id later new) free in
              rw
                (
                  held,
                  free,
                  lease_seat,
                  given,
                  lookup-insert k seat_id (leased new requester server_id) d.seats,
                )
                (Backs-ite (ℕ_discrete seat_id k) _ _ _ _ (refl, refl, named) before)
          | inr (l, taken) ↦
              let refused = reply ∙ ap (acquire_reply seat_id later new) taken in
              let kept = held ∙ held_again k l taken in rw (kept, lease_seat, refused) before
        ];
  }
    where
      held_again :
          (k : ℕ) (l : Lease)
          → live now (lookup seat_id d.lease_manager.leases_by_seat) ≡ some l
          → ite
              (ℕ_discrete seat_id k)
              (elim (live now (lookup seat_id d.lease_manager.leases_by_seat))
                as (λ _. Option Lease) [
                  | none ↦
                      some (
                        granted uuid later seat_id server_id requester (some 30000) d.lease_manager)
                  | some l' ↦ some l'
                ])
              (live now (lookup k d.lease_manager.leases_by_seat))
            ≡ live now (lookup k d.lease_manager.leases_by_seat)
      held_again k l taken = ground (arith, taken)

  -- A seat that has a lease names it.
  pub backed_by :
      (k : ℕ) (seat : Seat) (l : Lease)
      → lookup k d.seats ≡ some seat
      → lookup k d.lease_manager.leases_by_seat ≡ some l
      → (seat.lease_id ≡ l.lease_id) × (is_empty l.lease_id ≡ false) × (is_locked seat ≡ true)
  backed_by k seat l at held =
      let (lock, same, named) = rw (at, held) at (v.backed k) in (same, named, lock)

  -- No lease is left on a seat when the lease that it names has been released.
  pub release-frees :
      (k : ℕ) (seat : Seat)
      → lookup k d.seats ≡ some seat
      → lookup k (release seat.lease_id d.lease_manager).leases_by_seat ≡ none
  release-frees k seat at =
      let m = d.lease_manager in
      elim (Option-cases (lookup k m.leases_by_seat)) [
        | inl free ↦ elim (Option-cases (lookup seat.lease_id m.leases_by_id)) [
          | inl gone ↦
              ap (lookup k) (lookup_seat-release_absent m v.consistent seat.lease_id gone) ∙ free
          | inr (l, there) ↦
              ground (arith, lookup_seat-release m v.consistent seat.lease_id k l there)
        ]
        | inr (l, held) ↦
            let named = backed_by k seat l at held in
            let there : lookup seat.lease_id m.leases_by_id ≡ some l =
              rw (named.0) (v.consistent.seat_entry k l held).1 in
            ground (
              arith,
              lookup_seat-release m v.consistent seat.lease_id k l there,
              v.consistent.seat_entry k l held,
            )
      ]
