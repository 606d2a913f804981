-- ===== src/Locking/Table/Rows.antt =====
-- The leases that the map by seat holds, as rows of a table.
use distributed_tickit_syste.Common.{
  ℕ, ◌≡◌, refl, ap, ◌∙◌, inl, inr, Bool, true, false, not, none, some, List, [], ◌∷◌, ◌++◌, filter,
  foldl, if◌then◌else◌, Key, nat_key, string_key, arith, Bool-cases,
}
use distributed_tickit_syste.Common.Dict.{Dict, lookup, insert, erase, values, IsUnique}
use distributed_tickit_syste.Locking.{Lease, DistributedLeaseManager, drop_lease}
use distributed_tickit_syste.Locking.Expiry.{any, on_seat}
use distributed_tickit_syste.Locking.Table.{find, replace}

module _ {ℓ} {K V : Type ℓ} ⦃key : Key K⦄ where
  pub found :
      (p : V → Bool) (v : V) (d : Dict K V)
      → IsUnique d
      → find p (values d) ≡ some v
      → (k : K) × (lookup k d ≡ some v) × (p v ≡ true)
  unfolding find lookup values
  found p v [] u e = cc
  found p v ((j, w) ∷ d) u e = elim (Bool-cases (p w)) [
    | inl h ↦ (j, ground arith, ground arith)
    | inr h ↦ let (k, at, hp) = found p v d u.1 (ground arith) in (k, ground arith, hp)
  ]

  pub missed :
      (p : V → Bool) (k : K) (v : V) (d : Dict K V)
      → find p (values d) ≡ none
      → lookup k d ≡ some v
      → p v ≡ false
  unfolding find lookup values
  missed p k v [] e at = cc
  missed p k v ((j, w) ∷ d) e at = ground (arith, missed p k v d)

  pub filter-values :
      (p q : V → Bool) (d : Dict K V)
      → IsUnique d
      → ((k : K) (v : V) → lookup k d ≡ some v → p v ≡ q v)
      → filter p (values d) ≡ filter q (values d)
  unfolding lookup values
  filter-values p q [] u same = refl
  filter-values p q ((j, w) ∷ d) u same =
      let rest = filter-values p q d u.1 (λ k v at. same k v (ground arith)) in
      let first : p w ≡ q w = same j w (ground arith) in rw (first, rest) refl

  pub values-insert_new :
      (k : K) (v : V) (d : Dict K V)
      → lookup k d ≡ none
      → values (insert k v d) ≡ values d ++ (v ∷ [])
  unfolding lookup insert values
  values-insert_new k v [] e = refl
  values-insert_new k v ((j, w) ∷ d) e = ground (arith, values-insert_new k v d)

-- Every lease stands under its own seat.
abbrev pub IsKeyed : Dict ℕ Lease → Type 0
IsKeyed [] = Unit
IsKeyed ((k, l) ∷ d) = (l.seat_id ≡ k) × IsKeyed d

pub keyed :
    (d : Dict ℕ Lease)
    → IsUnique d
    → ((k : ℕ) (l : Lease) → lookup k d ≡ some l → l.seat_id ≡ k)
    → IsKeyed d
unfolding lookup
keyed [] u own = tt
keyed ((j, w) ∷ d) u own = (own j w (ground arith), keyed d u.1 (λ k l at. own k l (ground arith)))

pub values-erase :
    (k : ℕ) (d : Dict ℕ Lease)
    → IsKeyed d
    → values (erase k d) ≡ filter (λ l. not (on_seat k l)) (values d)
unfolding erase values
values-erase k [] own = refl
values-erase k ((j, w) ∷ d) own = ground (arith, values-erase k d own.1)

erase-IsKeyed : (k : ℕ) (d : Dict ℕ Lease) → IsKeyed d → IsKeyed (erase k d)
unfolding erase
erase-IsKeyed k [] own = tt
erase-IsKeyed k ((j, w) ∷ d) own = ground (arith, erase-IsKeyed k d own.1)

pub values-insert_held :
    (lease : Lease) (d : Dict ℕ Lease)
    → IsKeyed d
    → IsUnique d
    → (old : Lease) → lookup lease.seat_id d ≡ some old
    → values (insert lease.seat_id lease d) ≡ replace lease (values d)
unfolding lookup insert values
values-insert_held lease [] own u old at = cc
values-insert_held lease ((j, w) ∷ d) own u old at =
    ground (arith, values-insert_held lease d own.1 u.1 old, replace-absent lease d own.1)
  where
    replace-absent :
        (lease : Lease) (d : Dict ℕ Lease)
        → IsKeyed d
        → lookup lease.seat_id d ≡ none
        → replace lease (values d) ≡ values d
    replace-absent lease [] own free = refl
    replace-absent lease ((j, w) ∷ d) own free = ground (arith, replace-absent lease d own.1)

filter-filter :
    (p q : Lease → Bool) (ls : List Lease)
    → filter p (filter q ls) ≡ filter (λ l. if q l then p l else false) ls
filter-filter p q [] = refl
filter-filter p q (l ∷ ls) = ground (arith, filter-filter p q ls)

filter-same :
    (p q : Lease → Bool) → ((l : Lease) → p l ≡ q l) → (ls : List Lease) → filter p ls ≡ filter q ls
filter-same p q e [] = refl
filter-same p q e (l ∷ ls) = rw (e l, filter-same p q e ls) refl

pub filter-everyone : (rows : List Lease) → rows ≡ filter (λ l. true) rows
filter-everyone [] = refl
filter-everyone (l ∷ rows) = ap (◌∷◌ l) (filter-everyone rows)

-- Dropping leases one after the other removes the rows of their seats.
pub values-drops :
    (ls : List Lease) (m : DistributedLeaseManager)
    → IsKeyed m.leases_by_seat
    → values (foldl drop_lease m ls).leases_by_seat
      ≡ filter (λ l. not (any (on_seat l.seat_id) ls)) (values m.leases_by_seat)
unfolding any drop_lease
values-drops [] m own = filter-everyone (values m.leases_by_seat)
values-drops (lease ∷ ls) m own =
    let both : values (foldl drop_lease (drop_lease m lease) ls).leases_by_seat
        ≡ filter (λ l. not (any (on_seat l.seat_id) ls))
            (filter (λ l. not (on_seat lease.seat_id l)) (values m.leases_by_seat)) =
      rw (← values-erase lease.seat_id m.leases_by_seat own)
        (values-drops ls (drop_lease m lease) (erase-IsKeyed lease.seat_id m.leases_by_seat own)) in
    both
    ∙ filter-filter _ _ (values m.leases_by_seat)
    ∙ filter-same
        (λ l. if not (on_seat lease.seat_id l) then not (any (on_seat l.seat_id) ls) else false)
        (λ l. not (any (on_seat l.seat_id) (lease ∷ ls))) (λ l. ground arith)
        (values m.leases_by_seat)
