-- ===== src/Locking/Invariant.antt =====
-- Every operation of the lease manager keeps its two maps consistent.
use distributed_tickit_syste.Common.{
  ℕ, String, ◌≡◌, inl, inr, Option, none, some, arith, Option-cases, ite, ℕ_discrete, string_same,
  nat_key, string_key,
}
use distributed_tickit_syste.Common.Dict.{
  lookup, IsUnique, lookup-insert, lookup-erase, insert-IsUnique, erase-IsUnique,
}
use distributed_tickit_syste.Locking.{
  Lease, DistributedLeaseManager, init, after_expiry, store_lease, acquire, renew, release,
  validate,
}
use distributed_tickit_syste.Locking.Expiry.{
  IsConsistent, after_expiry-IsConsistent, lookup_id-after_expiry,
}

pub init-IsConsistent : (ttl : ℕ) → IsConsistent (init ttl)
unfolding init lookup
init-IsConsistent ttl = record {
  unique_seats = tt;
  seat_entry = λ k l e. cc;
  id_entry = λ i l e. cc;
}

-- Storing a lease keeps the maps consistent if its seat and its id are both free, or both belong
-- to the one lease that it replaces.
store_lease-IsConsistent :
    (lease : Lease) (m : DistributedLeaseManager)
    → IsConsistent m
    → ((l : Lease) → lookup lease.seat_id m.leases_by_seat ≡ some l → l.lease_id ≡ lease.lease_id)
    → ((l : Lease) → lookup lease.lease_id m.leases_by_id ≡ some l → l.seat_id ≡ lease.seat_id)
    → IsConsistent (store_lease lease m)
store_lease-IsConsistent lease m c same_id same_seat = record {
  unique_seats = insert-IsUnique lease.seat_id lease m.leases_by_seat c.unique_seats;
  seat_entry = λ k l at. ground (
    arith,
    lookup-insert k lease.seat_id lease m.leases_by_seat,
    lookup-insert l.lease_id lease.lease_id lease m.leases_by_id,
    c.seat_entry k l,
    same_seat l,
  );
  id_entry = λ i l at. ground (
    arith,
    lookup-insert i lease.lease_id lease m.leases_by_id,
    lookup-insert l.seat_id lease.seat_id lease m.leases_by_seat,
    c.id_entry i l,
    same_id l,
  );
}

module _ (m : DistributedLeaseManager) (c : IsConsistent m) where
  pub acquire-IsConsistent :
      (uuid : String) (now later seat_id : ℕ) (holder owner : String) (ttl : Option ℕ)
      → lookup uuid m.leases_by_id ≡ none
      → IsConsistent (acquire uuid now later seat_id holder owner ttl m).1
  unfolding acquire
  acquire-IsConsistent uuid now later seat_id holder owner ttl fresh =
      elim (Option-cases (lookup seat_id (after_expiry now m).leases_by_seat)) [
        | inr (l, taken) ↦ rw (taken, acquire) (after_expiry-IsConsistent now m c)
        | inl free ↦
            rw (free, acquire)
              (store_lease-IsConsistent _ (after_expiry now m) (after_expiry-IsConsistent now m c)
                (λ l at. cc (free, at))
                (λ l at. ground (arith, lookup_id-after_expiry now m c uuid)))
      ]

  pub renew-IsConsistent :
      (now later : ℕ) (lease_id : String) (ttl : Option ℕ)
      → IsConsistent (renew now later lease_id ttl m).1
  unfolding renew
  renew-IsConsistent now later lease_id ttl =
      let c' : IsConsistent (after_expiry now m) = after_expiry-IsConsistent now m c in
      elim (Option-cases (lookup lease_id (after_expiry now m).leases_by_id)) [
        | inl gone ↦ rw (gone, renew) c'
        | inr (l, at) ↦
            rw (at, renew)
              (store_lease-IsConsistent _ (after_expiry now m) c'
                (λ k held. ground (arith, c'.id_entry lease_id l at))
                (λ k named. ground (arith, c'.id_entry lease_id l at)))
      ]

  -- What a release leaves in the two maps.
  pub lookup_id-release :
      (i j : String)
      → lookup j (release i m).leases_by_id ≡ ite (string_same i j) none (lookup j m.leases_by_id)
  unfolding release
  lookup_id-release i j = ground (arith, lookup-erase j i m.leases_by_id)

  pub lookup_seat-release :
      (i : String) (k : ℕ) (l : Lease)
      → lookup i m.leases_by_id ≡ some l
      → lookup k (release i m).leases_by_seat
        ≡ ite (ℕ_discrete l.seat_id k) none (lookup k m.leases_by_seat)
  unfolding release
  lookup_seat-release i k l at =
      ground (arith, lookup-erase k l.seat_id m.leases_by_seat, c.id_entry i l at)

  pub lookup_seat-release_absent :
      (i : String)
      → lookup i m.leases_by_id ≡ none
      → (release i m).leases_by_seat ≡ m.leases_by_seat
  unfolding release
  lookup_seat-release_absent i gone = rw (gone, release)

  release-IsUnique : (i : String) → IsUnique (release i m).leases_by_seat
  unfolding release
  release-IsUnique i = elim (Option-cases (lookup i m.leases_by_id)) [
    | inl gone ↦ rw (gone, release) c.unique_seats
    | inr (l, at) ↦ ground (arith, erase-IsUnique l.seat_id m.leases_by_seat c.unique_seats)
  ]

  pub release-IsConsistent : (i : String) → IsConsistent (release i m)
  release-IsConsistent i = elim (Option-cases (lookup i m.leases_by_id)) [
    | inl gone ↦ record {
      unique_seats = release-IsUnique i;
      seat_entry = λ k l at. ground (
        arith,
        lookup_id-release i l.lease_id,
        lookup_seat-release_absent i gone,
        c.seat_entry k l,
      );
      id_entry = λ j l at.
          ground (arith, lookup_id-release i j, lookup_seat-release_absent i gone, c.id_entry j l);
    }
    | inr (held, at) ↦ record {
      unique_seats = release-IsUnique i;
      seat_entry = λ k l e. ground (
        arith,
        lookup_id-release i l.lease_id,
        lookup_seat-release i k held at,
        c.seat_entry k l,
        c.id_entry i held at,
      );
      id_entry = λ j l e. ground (
        arith,
        lookup_id-release i j,
        lookup_seat-release i l.seat_id held at,
        c.id_entry j l,
        c.id_entry i held at,
      );
    }
  ]

  pub validate-IsConsistent :
      (now : ℕ) (i : String) (seat : Option ℕ) → IsConsistent (validate now i seat m).1
  unfolding validate
  validate-IsConsistent now i seat =
      elim (Option-cases (lookup i (after_expiry now m).leases_by_id)) [
        | inl gone ↦ rw (gone, validate) (after_expiry-IsConsistent now m c)
        | inr (l, at) ↦ rw (at, validate) (after_expiry-IsConsistent now m c)
      ]
