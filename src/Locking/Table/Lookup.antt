-- ===== src/Locking/Table/Lookup.antt =====
-- A lease is found in the rows as in the maps of the manager.
use distributed_tickit_syste.Common.{
  ℕ, String, ◌≡◌, ap, ◌∙◌, inl, inr, not, some, List, nat_key, string_key, arith, Bool-cases,
  Option-cases,
}
use distributed_tickit_syste.Common.Dict.{lookup, values}
use distributed_tickit_syste.Locking.{
  Lease, DistributedLeaseManager, after_expiry, expire_locked, expired_at,
}
use distributed_tickit_syste.Locking.Expiry.{
  after_expiry-IsConsistent, IsConsistent, any, on_seat, has_id, over, expired_of_seat,
  seat_found_expired,
}
use distributed_tickit_syste.Locking.Table.{find, in_force}
use distributed_tickit_syste.Locking.Table.Rows.{
  IsKeyed, found, missed, filter-values, keyed, values-drops,
}

abbrev pub rows : DistributedLeaseManager → List Lease
rows m = values m.leases_by_seat

pub seats-IsKeyed : (m : DistributedLeaseManager) → IsConsistent m → IsKeyed m.leases_by_seat
seats-IsKeyed m c = keyed m.leases_by_seat c.unique_seats (λ k l at. (c.seat_entry k l at).0)

module _ (m : DistributedLeaseManager) (c : IsConsistent m) where
  find-seat : (k : ℕ) → find (on_seat k) (rows m) ≡ lookup k m.leases_by_seat
  find-seat k = elim (Option-cases (find (on_seat k) (rows m))) [
    | inr (l, e) ↦
        let (j, at, own) = found (on_seat k) l m.leases_by_seat c.unique_seats e in
        ground (arith, c.seat_entry j l at)
    | inl e ↦ elim (Option-cases (lookup k m.leases_by_seat)) [
      | inl free ↦ cc
      | inr (l, at) ↦
          ground (arith, missed (on_seat k) k l m.leases_by_seat e at, c.seat_entry k l at)
    ]
  ]

  find-id : (i : String) → find (has_id i) (rows m) ≡ lookup i m.leases_by_id
  find-id i = elim (Option-cases (find (has_id i) (rows m))) [
    | inr (l, e) ↦
        let (j, at, own) = found (has_id i) l m.leases_by_seat c.unique_seats e in
        ground (arith, c.seat_entry j l at)
    | inl e ↦ elim (Option-cases (lookup i m.leases_by_id)) [
      | inl free ↦ cc
      | inr (l, at) ↦ ground (
        arith,
        missed (has_id i) l.seat_id l m.leases_by_seat e (c.id_entry i l at).1,
        c.id_entry i l at,
      )
    ]
  ]

  pub rows-after_expiry : (now : ℕ) → rows (after_expiry now m) ≡ in_force now (rows m)
  unfolding expire_locked
  rows-after_expiry now =
      values-drops (expired_at now m) m (seats-IsKeyed m c)
      ∙ filter-values (λ l. not (any (on_seat l.seat_id) (expired_at now m)))
          (λ l. not (over now l)) m.leases_by_seat c.unique_seats
          (λ k l at. ap not (over_seat k l at))
    where
      over_seat :
          (k : ℕ) (l : Lease)
          → lookup k m.leases_by_seat ≡ some l
          → any (on_seat l.seat_id) (expired_at now m) ≡ over now l
      over_seat k l at =
          rw (c.seat_entry k l at).0 (elim (Bool-cases (any (on_seat k) (expired_at now m))) [
            | inl e ↦ ground (arith, expired_of_seat now m c k e)
            | inr e ↦ ground (arith, seat_found_expired now m c k l at)
          ])

module _ (m : DistributedLeaseManager) (c : IsConsistent m) (now : ℕ) where
  pub find-seat-in_force :
      (k : ℕ)
      → find (on_seat k) (in_force now (rows m)) ≡ lookup k (after_expiry now m).leases_by_seat
  find-seat-in_force k =
      rw (← rows-after_expiry m c now)
        (find-seat (after_expiry now m) (after_expiry-IsConsistent now m c) k)

  pub find-id-in_force :
      (i : String)
      → find (has_id i) (in_force now (rows m)) ≡ lookup i (after_expiry now m).leases_by_id
  find-id-in_force i =
      rw (← rows-after_expiry m c now)
        (find-id (after_expiry now m) (after_expiry-IsConsistent now m c) i)
