-- ===== src/Locking/Exclusion.antt =====
-- What the lease manager promises: one holder per seat, until the lease is over or released.
use distributed_tickit_syste.Common.{
  ℕ, ◌+◌, String, ◌≡◌, ◌≢◌, ◌⊎◌, Bool-cases, refl, inl, inr, Option, none, some, arith,
  Option-cases, leb, if◌then◌else◌, ite, ℕ_discrete, nat_key, string_key,
}
use distributed_tickit_syste.Common.Dict.{lookup, lookup-insert}
use distributed_tickit_syste.Locking.{
  Lease, Result, ok, raise, conflict, not_active, wrong_seat, DistributedLeaseManager,
  remaining_seconds, or_default, acquire, renew, release, validate, after_expiry,
}
use distributed_tickit_syste.Locking.Expiry.{
  IsConsistent, live, lookup_seat-after_expiry, lookup_id-after_expiry, default_ttl-after_expiry,
  after_expiry-IsConsistent,
}
use distributed_tickit_syste.Locking.Trace.{Reach, Reach-IsConsistent}
use distributed_tickit_syste.Locking.Invariant.{
  acquire-IsConsistent, renew-IsConsistent, release-IsConsistent, lookup_id-release,
  lookup_seat-release,
}

-- The lease that `acquire` hands out.
abbrev pub granted :
    (uuid : String) (later seat_id : ℕ) (holder owner : String) (ttl : Option ℕ)
    → DistributedLeaseManager
    → Lease
granted uuid later seat_id holder owner ttl m = record {
  lease_id = uuid;
  seat_id = seat_id;
  holder = holder;
  owner = owner;
  expires_at = later + or_default ttl m.default_ttl_seconds;
}

-- The reply to an `acquire` of a seat whose lease, if any, is the argument.
abbrev pub acquire_reply : (seat_id later : ℕ) → Lease → Option Lease → Result Lease
acquire_reply seat_id later new none = ok new
acquire_reply seat_id later new (some l) =
    raise (conflict seat_id l.holder (remaining_seconds l later))

-- The reply to a `validate` of a lease id that maps to the argument.
abbrev pub validate_reply : String → Option Lease → Result Lease
validate_reply i none = raise (not_active i)
validate_reply i (some l) = ok l

validate-live :
    (m : DistributedLeaseManager)
    → IsConsistent m
    → (now : ℕ) (i : String)
    → (validate now i none m).0 ≡ validate_reply i (live now (lookup i m.leases_by_id))
unfolding validate
validate-live m c now i = ground (arith, lookup_id-after_expiry now m c i)

-- `validate` of a stored lease for its own seat turns on the expiry alone.
validate_stored :
    (m : DistributedLeaseManager)
    → IsConsistent m
    → (t seat_id : ℕ) (i : String) (l : Lease) → lookup i m.leases_by_id ≡ some l
    → l.seat_id ≡ seat_id
    → (validate t i (some seat_id) m).0
      ≡ (if leb l.expires_at t then raise (not_active i) else ok l)
unfolding validate
validate_stored m c t seat_id i l at own = ground (arith, lookup_id-after_expiry t m c i)

-- While one lease is stored for a seat, another id is refused for it.
others_refused :
    (m : DistributedLeaseManager)
    → IsConsistent m
    → (t seat_id : ℕ) (i uuid : String) (l : Lease) → lookup uuid m.leases_by_id ≡ some l
    → l.seat_id ≡ seat_id
    → i ≢ uuid
    → ((validate t i (some seat_id) m).0 ≡ raise (not_active i))
      ⊎ ((validate t i (some seat_id) m).0 ≡ raise (wrong_seat i seat_id))
unfolding validate
others_refused m c t seat_id i uuid l at own other = elim (Option-cases (lookup i m.leases_by_id)) [
  | inl gone ↦ inl (ground (arith, lookup_id-after_expiry t m c i))
  | inr (l', at') ↦ elim (Bool-cases (leb l'.expires_at t)) [
    | inl over ↦ inl (ground (arith, lookup_id-after_expiry t m c i))
    | inr live_ ↦
        inr (
          ground (arith, lookup_id-after_expiry t m c i, c.id_entry i l' at', c.id_entry uuid l at))
  ]
]

module _ (m : DistributedLeaseManager) (c : IsConsistent m) where
  module _ (uuid : String) (now later seat_id : ℕ) (holder owner : String) (ttl : Option ℕ) where
    -- On a consistent manager `acquire` refuses a seat exactly while a lease on it is not over,
    -- naming that lease's holder and the seconds it has left; otherwise it hands out a lease of
    -- the given or the default duration. Afterwards the seat has the lease that is in force, and
    -- every other seat has what is live of its lease.
    pub acquire_lem :
        (k : ℕ)
        → let held = live now (lookup seat_id m.leases_by_seat) in
          let new = granted uuid later seat_id holder owner ttl m in
          let (reply, m') = acquire uuid now later seat_id holder owner ttl m in
          (reply ≡ acquire_reply seat_id later new held)
          × (lookup k m'.leases_by_seat
              ≡ ite
                  (ℕ_discrete seat_id k)
                  (elim held [ none ↦ some new | some l ↦ some l ])
                  (live now (lookup k m.leases_by_seat)))
    unfolding acquire
    acquire_lem k = ground (
      arith,
      lookup_seat-after_expiry now m c seat_id,
      lookup_seat-after_expiry now m c k,
      default_ttl-after_expiry now m,
      lookup-insert k seat_id (granted uuid later seat_id holder owner ttl m)
          (after_expiry now m).leases_by_seat,
    )

    acquire_stores :
        (l : Lease)
        → (acquire uuid now later seat_id holder owner ttl m).0 ≡ ok l
        → (lookup uuid (acquire uuid now later seat_id holder owner ttl m).1.leases_by_id ≡ some l)
          × (l.seat_id ≡ seat_id)
          × (l.expires_at ≡ later + or_default ttl m.default_ttl_seconds)
    unfolding acquire
    acquire_stores l e = ground (
      arith,
      default_ttl-after_expiry now m,
      lookup-insert uuid uuid (granted uuid later seat_id holder owner ttl (after_expiry now m))
          (after_expiry now m).leases_by_id,
    )

    -- The lease that an `acquire` with a fresh id returned is accepted by `validate`, for its seat,
    -- before its expiry, and refused from then on.
    pub validate-acquire :
        (l : Lease) (t : ℕ)
        → lookup uuid m.leases_by_id ≡ none
        → (acquire uuid now later seat_id holder owner ttl m).0 ≡ ok l
        → (validate t uuid (some seat_id) (acquire uuid now later seat_id holder owner ttl m).1).0
          ≡ (if leb (later + or_default ttl m.default_ttl_seconds) t
              then raise (not_active uuid)
              else ok l)
    validate-acquire l t fresh e =
        let (at, own, expiry) = acquire_stores l e in
        rw (← expiry) (
          validate_stored (acquire uuid now later seat_id holder owner ttl m).1
            (acquire-IsConsistent m c uuid now later seat_id holder owner ttl fresh) t seat_id uuid
            l at own)

  renew_stores :
      (now later : ℕ) (i : String) (ttl : Option ℕ) (l : Lease)
      → (renew now later i ttl m).0 ≡ ok l
      → (lookup i (renew now later i ttl m).1.leases_by_id ≡ some l)
        × (l.expires_at ≡ later + or_default ttl m.default_ttl_seconds)
  unfolding renew
  renew_stores now later i ttl l e =
      elim (Option-cases (lookup i (after_expiry now m).leases_by_id)) [
        | inl gone ↦ ground arith
        | inr (old, at) ↦ ground (
          arith,
          default_ttl-after_expiry now m,
          lookup-insert i l.lease_id l (after_expiry now m).leases_by_id,
          (after_expiry-IsConsistent now m c).id_entry i old,
        )
      ]

  renew_keeps :
      (now later : ℕ) (i : String) (ttl : Option ℕ) (l : Lease)
      → (renew now later i ttl m).0 ≡ ok l
      → (old : Lease) × (lookup i m.leases_by_id ≡ some old)
        × (l ≡ record old { expires_at = later + or_default ttl m.default_ttl_seconds })
  unfolding renew
  renew_keeps now later i ttl l e =
      elim (Option-cases (lookup i (after_expiry now m).leases_by_id)) [
        | inl gone ↦ absurd (ground arith)
        | inr (old, at) ↦ (
          old,
          ground (arith, lookup_id-after_expiry now m c i),
          ground (arith, default_ttl-after_expiry now m),
        )
      ]

  -- A lease that `renew` returns on a consistent manager is the one that was held under the id, with
  -- a new expiry and all else as it was. `validate` accepts it for its seat before the new expiry
  -- and refuses it from then on, also if the old expiry was later.
  pub validate-renew :
      (now later : ℕ) (i : String) (ttl : Option ℕ) (l : Lease) (t : ℕ)
      → (renew now later i ttl m).0 ≡ ok l
      → ((old : Lease) × (lookup i m.leases_by_id ≡ some old)
          × (l ≡ record old { expires_at = later + or_default ttl m.default_ttl_seconds }))
        × ((validate t i (some l.seat_id) (renew now later i ttl m).1).0 ≡ (
            if leb (later + or_default ttl m.default_ttl_seconds) t
            then raise (not_active i)
            else ok l))
  validate-renew now later i ttl l t e =
      let (at, expiry) = renew_stores now later i ttl l e in
      (
        renew_keeps now later i ttl l e,
        rw (← expiry) (
            validate_stored (renew now later i ttl m).1 (renew-IsConsistent m c now later i ttl) t
              l.seat_id i l at refl),
      )

  -- A released lease is refused by `validate` at any time, its seat is free, and every other seat
  -- keeps its lease.
  pub release_frees :
      (now k : ℕ) (i : String) (l : Lease)
      → lookup i m.leases_by_id ≡ some l
      → ((validate now i none (release i m)).0 ≡ raise (not_active i))
        × (lookup k (release i m).leases_by_seat
            ≡ ite (ℕ_discrete l.seat_id k) none (lookup k m.leases_by_seat))
  release_frees now k i l at =
      let gone : lookup i (release i m).leases_by_id ≡ none =
        ground (arith, lookup_id-release m c i i) in
      (
        rw (validate-live (release i m) (release-IsConsistent m c i) now i, gone) refl,
        lookup_seat-release m c i k l at,
      )

-- After any calls, a lease that `acquire` hands out under a fresh id gives its seat to one holder: for
-- this seat `validate` accepts that id until the lease is over and refuses it from then on, and
-- refuses every other id at any time, as not active or as a lease of another seat. A fresh id is
-- not the id of a lease that is held, here and in the calls before.
pub acquire-is_exclusive :
    {default_ttl : ℕ} {m : DistributedLeaseManager}
    → Reach default_ttl m
    → (uuid : String) (now later seat_id : ℕ) (holder owner : String) (ttl : Option ℕ) (l : Lease)
    → lookup uuid m.leases_by_id ≡ none
    → (acquire uuid now later seat_id holder owner ttl m).0 ≡ ok l
    → (t : ℕ)
    → let m' = (acquire uuid now later seat_id holder owner ttl m).1 in
      ((validate t uuid (some seat_id) m').0 ≡ (
        if leb (later + or_default ttl m.default_ttl_seconds) t
        then raise (not_active uuid)
        else ok l))
      × ((i : String)
          → i ≢ uuid
          → ((validate t i (some seat_id) m').0 ≡ raise (not_active i))
            ⊎ ((validate t i (some seat_id) m').0 ≡ raise (wrong_seat i seat_id)))
acquire-is_exclusive {default_ttl} {m} reached uuid now later seat_id holder owner ttl l fresh e t =
    let c = Reach-IsConsistent reached in
    let m' = (acquire uuid now later seat_id holder owner ttl m).1 in
    let c' : IsConsistent m' =
      acquire-IsConsistent m c uuid now later seat_id holder owner ttl fresh in
    let (at, own, expiry) = acquire_stores m c uuid now later seat_id holder owner ttl l e in
    (
      validate-acquire m c uuid now later seat_id holder owner ttl l t fresh e,
      λ i other. others_refused m' c' t seat_id i uuid l at own other,
    )
