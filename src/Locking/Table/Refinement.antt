-- ===== src/Locking/Table/Refinement.antt =====
-- The lease manager, with its two maps and the leases that it drops late, gives the answers of the
-- table.
use distributed_tickit_syste.Common.{
  ℕ, ◌≡◌, refl, ap, ◌∙◌, List, [], ◌∷◌, nat_key, string_key, arith,
}
use distributed_tickit_syste.Common.Dict.{values}
use distributed_tickit_syste.Locking
use distributed_tickit_syste.Locking.{
  Lease, DistributedLeaseManager, init, after_expiry, expire_locked, expired_at, or_default,
}
use distributed_tickit_syste.Locking.Expiry.{IsConsistent, default_ttl-after_expiry}
use distributed_tickit_syste.Locking.Invariant.{init-IsConsistent}
use distributed_tickit_syste.Locking.Trace.{
  Call, acquire, renew, release, validate, get_active_lease, expire_leases, after, IsFresh,
  after-IsConsistent,
}
use distributed_tickit_syste.Locking.Table.{LeaseAnswer, answers}
use distributed_tickit_syste.Locking.Table.Lookup.{rows}
use distributed_tickit_syste.Locking.Table.Steps.{answer, step_lem}

unfoldable pub run : List Call → DistributedLeaseManager → List LeaseAnswer
run [] m = []
run (call ∷ calls) m = answer call m ∷ run calls (after call m)

-- No call is given the id of a lease that is still held.
abbrev pub AreFresh : List Call → DistributedLeaseManager → Type 0
AreFresh [] m = Unit
AreFresh (call ∷ calls) m = IsFresh call m × AreFresh calls (after call m)

default_ttl-after :
    (call : Call) (m : DistributedLeaseManager)
    → (after call m).default_ttl_seconds ≡ m.default_ttl_seconds
unfolding after Locking.acquire Locking.renew Locking.release Locking.validate
    Locking.get_active_lease Locking.expire_leases
default_ttl-after (acquire u n t k h o ttl) m = ground (arith, default_ttl-after_expiry n m)
default_ttl-after (renew n t i ttl) m = ground (arith, default_ttl-after_expiry n m)
default_ttl-after (release i) m = ground arith
default_ttl-after (validate n i k) m = ground (arith, default_ttl-after_expiry n m)
default_ttl-after (get_active_lease n k) m = default_ttl-after_expiry n m
default_ttl-after (expire_leases n) m = default_ttl-after_expiry n m

run_from :
    (calls : List Call) (m : DistributedLeaseManager)
    → IsConsistent m
    → AreFresh calls m
    → run calls m ≡ answers m.default_ttl_seconds calls (rows m)
unfolding run answers
run_from [] m c fresh = refl
run_from (call ∷ calls) m c (first, later) =
    let rest = run_from calls (after call m) (after-IsConsistent call m c first) later in
    rw (step_lem m c call) (
      ap (◌∷◌ (answer call m))
        (rest ∙ ap (λ d. answers d calls (rows (after call m))) (default_ttl-after call m)))

-- Any sequence of calls of a new lease manager, with any readings of the clock, gets the answers that
-- one table of leases gives, from which every call but `release` first strikes the leases that are
-- over: the lease or the error of each call, and the leases that `expire_leases` returns, in the
-- same order. The hypothesis: no `acquire` is given the id of a lease that is still held.
pub run-answers :
    (ttl : ℕ) (calls : List Call)
    → AreFresh calls (init ttl)
    → run calls (init ttl) ≡ answers ttl calls []
unfolding init values
run-answers ttl calls fresh = run_from calls (init ttl) (init-IsConsistent ttl) fresh
