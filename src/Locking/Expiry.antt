-- ===== src/Locking/Expiry.antt =====
-- What `_expire_locked` leaves of the two maps of the lease manager.
use distributed_tickit_syste.Common.{
  ℕ, String, ◌≡◌, refl, inl, inr, Bool, true, false, ◌&&◌, ◌||◌, Option, none, some, List, [], ◌∷◌,
  foldl, leb, filter, if◌then◌else◌, ite, ℕ_discrete, string_same, Key, nat_key, string_key,
  Bool-cases, Option-cases, arith,
}
use distributed_tickit_syste.Common.Dict.{
  Dict, lookup, values, IsUnique, lookup-erase, erase-IsUnique,
}
use distributed_tickit_syste.Locking.{
  Lease, DistributedLeaseManager, drop_lease, expired_at, expire_locked, after_expiry,
}

-- A lease per seat and a seat per lease: the two maps hold the same leases, each under its keys.
pub record IsConsistent (m : DistributedLeaseManager) : Type 0 where
  pub unique_seats : IsUnique m.leases_by_seat
  pub seat_entry :
      (k : ℕ) (l : Lease)
      → lookup k m.leases_by_seat ≡ some l
      → (l.seat_id ≡ k) × (lookup l.lease_id m.leases_by_id ≡ some l)
  pub id_entry :
      (i : String) (l : Lease)
      → lookup i m.leases_by_id ≡ some l
      → (l.lease_id ≡ i) × (lookup l.seat_id m.leases_by_seat ≡ some l)

unfoldable pub any {ℓ} : {A : Type ℓ} → (A → Bool) → List A → Bool
any p [] = false
any p (x ∷ xs) = p x || any p xs

module _ {ℓ} {K V : Type ℓ} ⦃key : Key K⦄ (p q : V → Bool) where
  any-of-lookup :
      (k : K) (v : V) (d : Dict K V)
      → lookup k d ≡ some v
      → q v ≡ true
      → p v ≡ true
      → any p (filter q (values d)) ≡ true
  unfolding any lookup values
  any-of-lookup k v [] e hq hp = cc
  any-of-lookup k v ((j, w) ∷ d) e hq hp = ground (arith, any-of-lookup k v d)

  lookup-of-any :
      (d : Dict K V)
      → IsUnique d
      → any p (filter q (values d)) ≡ true
      → (k : K) × (v : V) × (lookup k d ≡ some v) × (q v ≡ true) × (p v ≡ true)
  unfolding any lookup values
  lookup-of-any [] u e = cc
  lookup-of-any ((j, w) ∷ d) u e = elim (Bool-cases (q w && p w)) [
    | inl h ↦ (j, w, ground arith, ground arith, ground arith)
    | inr h ↦
        let (k, v, at, hq, hp) = lookup-of-any d u.1 (ground arith) in (k, v, ground arith, hq, hp)
  ]

abbrev pub on_seat : ℕ → Lease → Bool
on_seat k l = ite (ℕ_discrete l.seat_id k) true false

abbrev pub has_id : String → Lease → Bool
has_id i l = ite (string_same l.lease_id i) true false

lookup_seat-drops :
    (k : ℕ) (ls : List Lease) (m : DistributedLeaseManager)
    → lookup k (foldl drop_lease m ls).leases_by_seat
      ≡ (if any (on_seat k) ls then none else lookup k m.leases_by_seat)
unfolding any drop_lease
lookup_seat-drops k [] m = refl
lookup_seat-drops k (l ∷ ls) m =
    ground
      (arith, lookup_seat-drops k ls (drop_lease m l), lookup-erase k l.seat_id m.leases_by_seat)

lookup_id-drops :
    (i : String) (ls : List Lease) (m : DistributedLeaseManager)
    → lookup i (foldl drop_lease m ls).leases_by_id
      ≡ (if any (has_id i) ls then none else lookup i m.leases_by_id)
unfolding any drop_lease
lookup_id-drops i [] m = refl
lookup_id-drops i (l ∷ ls) m =
    ground (arith, lookup_id-drops i ls (drop_lease m l), lookup-erase i l.lease_id m.leases_by_id)

drops-IsUnique :
    (ls : List Lease) (m : DistributedLeaseManager)
    → IsUnique m.leases_by_seat
    → IsUnique (foldl drop_lease m ls).leases_by_seat
unfolding drop_lease
drops-IsUnique [] m u = u
drops-IsUnique (l ∷ ls) m u =
    drops-IsUnique ls (drop_lease m l) (erase-IsUnique l.seat_id m.leases_by_seat u)

default_ttl-drops :
    (ls : List Lease) (m : DistributedLeaseManager)
    → (foldl drop_lease m ls).default_ttl_seconds ≡ m.default_ttl_seconds
unfolding drop_lease
default_ttl-drops [] m = refl
default_ttl-drops (l ∷ ls) m = default_ttl-drops ls (drop_lease m l)

-- The lease of an entry, if it is not over at `now`.
abbrev pub live : ℕ → Option Lease → Option Lease
live now none = none
live now (some l) = if leb l.expires_at now then none else some l

abbrev pub over : ℕ → Lease → Bool
over now l = leb l.expires_at now

module _ (now : ℕ) (m : DistributedLeaseManager) (c : IsConsistent m) where
  pub expired_of_seat :
      (k : ℕ)
      → any (on_seat k) (expired_at now m) ≡ true
      → (l : Lease) × (lookup k m.leases_by_seat ≡ some l) × (leb l.expires_at now ≡ true)
  unfolding expired_at
  expired_of_seat k e =
      let (j, l, at, hq, hp) =
        lookup-of-any (on_seat k) (over now) m.leases_by_seat c.unique_seats e in
      (l, ground (arith, c.seat_entry j l at), hq)

  expired_of_id :
      (i : String)
      → any (has_id i) (expired_at now m) ≡ true
      → (l : Lease) × (lookup i m.leases_by_id ≡ some l) × (leb l.expires_at now ≡ true)
  unfolding expired_at
  expired_of_id i e =
      let (j, l, at, hq, hp) =
        lookup-of-any (has_id i) (over now) m.leases_by_seat c.unique_seats e in
      (l, ground (arith, c.seat_entry j l at), hq)

  pub seat_found_expired :
      (k : ℕ) (l : Lease)
      → lookup k m.leases_by_seat ≡ some l
      → leb l.expires_at now ≡ true
      → any (on_seat k) (expired_at now m) ≡ true
  unfolding expired_at
  seat_found_expired k l at old =
      any-of-lookup (on_seat k) (over now) k l m.leases_by_seat at old
        (ground (arith, c.seat_entry k l at))

  id_found_expired :
      (i : String) (l : Lease)
      → lookup i m.leases_by_id ≡ some l
      → leb l.expires_at now ≡ true
      → any (has_id i) (expired_at now m) ≡ true
  unfolding expired_at
  id_found_expired i l at old =
      any-of-lookup (has_id i) (over now) l.seat_id l m.leases_by_seat (c.id_entry i l at).1 old
        (ground (arith, c.id_entry i l at))

  -- A seat keeps its lease unless that is over.
  pub lookup_seat-after_expiry :
      (k : ℕ) → lookup k (after_expiry now m).leases_by_seat ≡ live now (lookup k m.leases_by_seat)
  unfolding expire_locked
  lookup_seat-after_expiry k =
      rw lookup_seat-drops (elim (Bool-cases (any (on_seat k) (expired_at now m))) [
        | inl e ↦ let (l, at, old) = expired_of_seat k e in rw (e, at, old) refl
        | inr e ↦ elim (Option-cases (lookup k m.leases_by_seat)) [
          | inl free ↦ rw (e, free) refl
          | inr (l, at) ↦ rw (e, at) (ground (arith, seat_found_expired k l at))
        ]
      ])

  -- A lease is still found by its id unless it is over.
  pub lookup_id-after_expiry :
      (i : String) → lookup i (after_expiry now m).leases_by_id ≡ live now (lookup i m.leases_by_id)
  unfolding expire_locked
  lookup_id-after_expiry i =
      rw lookup_id-drops (elim (Bool-cases (any (has_id i) (expired_at now m))) [
        | inl e ↦ let (l, at, old) = expired_of_id i e in rw (e, at, old) refl
        | inr e ↦ elim (Option-cases (lookup i m.leases_by_id)) [
          | inl free ↦ rw (e, free) refl
          | inr (l, at) ↦ rw (e, at) (ground (arith, id_found_expired i l at))
        ]
      ])

  -- Dropping the leases that are over keeps the two maps consistent.
  pub after_expiry-IsConsistent : IsConsistent (after_expiry now m)
  after_expiry-IsConsistent = record {
    unique_seats = unfold expire_locked in drops-IsUnique (expired_at now m) m c.unique_seats;
    seat_entry = λ k l at.
        ground
          (arith, lookup_seat-after_expiry k, lookup_id-after_expiry l.lease_id, c.seat_entry k l);
    id_entry = λ i l at.
        ground
          (arith, lookup_id-after_expiry i, lookup_seat-after_expiry l.seat_id, c.id_entry i l);
  }

pub default_ttl-after_expiry :
    (now : ℕ) (m : DistributedLeaseManager)
    → (after_expiry now m).default_ttl_seconds ≡ m.default_ttl_seconds
unfolding expire_locked
default_ttl-after_expiry now m = default_ttl-drops (expired_at now m) m
