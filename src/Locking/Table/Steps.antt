-- ===== src/Locking/Table/Steps.antt =====
-- A call of the lease manager does to its rows what a step of the table does.
use distributed_tickit_syste.Common.{
  ℕ, ◌+◌, String, ◌≡◌, refl, ap, ◌∙◌, sym, inl, inr, true, not, Option, some, filter, nat_key,
  string_key, arith, Option-cases,
}
use distributed_tickit_syste.Common.Dict.{lookup, erase}
use distributed_tickit_syste.Locking
use distributed_tickit_syste.Locking.{
  Lease, DistributedLeaseManager, init, after_expiry, expire_locked, expired_at, or_default,
}
use distributed_tickit_syste.Locking.Expiry.{
  IsConsistent, on_seat, has_id, over, after_expiry-IsConsistent, default_ttl-after_expiry,
}
use distributed_tickit_syste.Locking.Invariant.{lookup_seat-release_absent}
use distributed_tickit_syste.Locking.Exclusion.{granted}
use distributed_tickit_syste.Locking.Trace.{
  Call, acquire, renew, release, validate, get_active_lease, expire_leases, after,
}
use distributed_tickit_syste.Locking.Table.{LeaseAnswer, replied, active, expired, nothing, step}
use distributed_tickit_syste.Locking.Table.Rows.{
  filter-values, values-insert_new, values-insert_held, values-erase, filter-everyone,
}
use distributed_tickit_syste.Locking.Table.Lookup.{
  rows, seats-IsKeyed, find-seat-in_force, find-id-in_force, rows-after_expiry,
}

-- What a call of the manager returns or raises.
unfoldable pub answer : Call → DistributedLeaseManager → LeaseAnswer
answer (acquire u n t s h o ttl) m = replied (Locking.acquire u n t s h o ttl m).0
answer (renew n t i ttl) m = replied (Locking.renew n t i ttl m).0
answer (release i) m = nothing
answer (validate n i s) m = replied (Locking.validate n i s m).0
answer (get_active_lease n s) m = active (Locking.get_active_lease n s m).0
answer (expire_leases n) m = expired (Locking.expire_leases n m).0

module _ (m : DistributedLeaseManager) (c : IsConsistent m) where
  step-acquire :
      (u : String) (n t k : ℕ) (h o : String) (ttl : Option ℕ)
      → step m.default_ttl_seconds (acquire u n t k h o ttl) (rows m)
        ≡ (answer (acquire u n t k h o ttl) m, rows (after (acquire u n t k h o ttl) m))
  unfolding step answer after Locking.acquire
  step-acquire u n t k h o ttl = elim (Option-cases (lookup k (after_expiry n m).leases_by_seat)) [
    | inl free ↦
        rw
          (
            find-seat-in_force m c n k,
            free,
            default_ttl-after_expiry n m,
            step,
            answer,
            after,
            Locking.acquire,
          )
          (rw
            (
              values-insert_new k (granted u t k h o ttl m) (after_expiry n m).leases_by_seat free,
              rows-after_expiry m c n,
            )
            refl)
    | inr (l, taken) ↦
        rw
          (
            find-seat-in_force m c n k,
            taken,
            ← rows-after_expiry m c n,
            step,
            answer,
            after,
            Locking.acquire,
          )
          refl
  ]

  step-renew :
      (n t : ℕ) (i : String) (ttl : Option ℕ)
      → step m.default_ttl_seconds (renew n t i ttl) (rows m)
        ≡ (answer (renew n t i ttl) m, rows (after (renew n t i ttl) m))
  unfolding step answer after Locking.renew
  step-renew n t i ttl =
      let c' : IsConsistent (after_expiry n m) = after_expiry-IsConsistent n m c in
      elim (Option-cases (lookup i (after_expiry n m).leases_by_id)) [
        | inl gone ↦
            rw
              (
                find-id-in_force m c n i,
                gone,
                ← rows-after_expiry m c n,
                step,
                answer,
                after,
                Locking.renew,
              )
              refl
        | inr (l, at) ↦
            rw
              (
                find-id-in_force m c n i,
                at,
                default_ttl-after_expiry n m,
                step,
                answer,
                after,
                Locking.renew,
              )
              (rw
                (
                  values-insert_held
                      (record l { expires_at = t + or_default ttl m.default_ttl_seconds })
                      (after_expiry n m).leases_by_seat (seats-IsKeyed (after_expiry n m) c')
                      c'.unique_seats l (c'.id_entry i l at).1,
                  rows-after_expiry m c n,
                )
                refl)
      ]

  release_seats :
      (i : String) (l : Lease)
      → lookup i m.leases_by_id ≡ some l
      → (Locking.release i m).leases_by_seat ≡ erase l.seat_id m.leases_by_seat
  unfolding Locking.release
  release_seats i l at = ground (arith, c.id_entry i l at)

  step-release :
      (i : String)
      → step m.default_ttl_seconds (release i) (rows m)
        ≡ (answer (release i) m, rows (after (release i) m))
  unfolding step answer after
  step-release i = elim (Option-cases (lookup i m.leases_by_id)) [
    | inl gone ↦
        rw (step, answer, after, lookup_seat-release_absent m c i gone)
          (ap (λ r. (nothing, r))
            (filter-values (λ l. not (has_id i l)) (λ l. true) m.leases_by_seat c.unique_seats
                (λ k l at. ground (arith, c.seat_entry k l at))
              ∙ sym (filter-everyone (rows m))))
    | inr (l, at) ↦
        rw (step, answer, after, release_seats i l at)
          (ap (λ r. (nothing, r))
            (filter-values (λ l. not (has_id i l)) (λ r. not (on_seat l.seat_id r)) m.leases_by_seat
                c.unique_seats
                (λ k r there. ground (arith, c.seat_entry k r there, c.id_entry i l at))
              ∙ sym (values-erase l.seat_id m.leases_by_seat (seats-IsKeyed m c))))
  ]

  step-validate :
      (n : ℕ) (i : String) (k : Option ℕ)
      → step m.default_ttl_seconds (validate n i k) (rows m)
        ≡ (answer (validate n i k) m, rows (after (validate n i k) m))
  unfolding step answer after Locking.validate
  step-validate n i k = elim (Option-cases (lookup i (after_expiry n m).leases_by_id)) [
    | inl gone ↦
        rw
          (
            find-id-in_force m c n i,
            gone,
            ← rows-after_expiry m c n,
            step,
            answer,
            after,
            Locking.validate,
          )
          refl
    | inr (l, at) ↦
        rw
          (
            find-id-in_force m c n i,
            at,
            ← rows-after_expiry m c n,
            step,
            answer,
            after,
            Locking.validate,
          )
          refl
  ]

  step-get_active_lease :
      (n k : ℕ)
      → step m.default_ttl_seconds (get_active_lease n k) (rows m)
        ≡ (answer (get_active_lease n k) m, rows (after (get_active_lease n k) m))
  unfolding step answer after Locking.get_active_lease
  step-get_active_lease n k =
      rw
        (
          find-seat-in_force m c n k,
          ← rows-after_expiry m c n,
          step,
          answer,
          after,
          Locking.get_active_lease,
        )
        refl

  step-expire_leases :
      (n : ℕ)
      → step m.default_ttl_seconds (expire_leases n) (rows m)
        ≡ (answer (expire_leases n) m, rows (after (expire_leases n) m))
  unfolding step answer after Locking.expire_leases expire_locked expired_at
  step-expire_leases n =
      ap (λ r. (expired (filter (over n) (rows m)), r)) (sym (rows-after_expiry m c n))

  -- One call of the manager is one step of the table.
  pub step_lem :
      (call : Call)
      → step m.default_ttl_seconds call (rows m) ≡ (answer call m, rows (after call m))
  step_lem (acquire u n t k h o ttl) = step-acquire u n t k h o ttl
  step_lem (renew n t i ttl) = step-renew n t i ttl
  step_lem (release i) = step-release i
  step_lem (validate n i k) = step-validate n i k
  step_lem (get_active_lease n k) = step-get_active_lease n k
  step_lem (expire_leases n) = step-expire_leases n
