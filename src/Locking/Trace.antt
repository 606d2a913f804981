-- ===== src/Locking/Trace.antt =====
-- Sequences of calls of the lease manager.
use distributed_tickit_syste.Common.{ℕ, String, ◌≡◌, Option, none, string_key}
use distributed_tickit_syste.Common.Dict.{lookup}
use distributed_tickit_syste.Locking
use distributed_tickit_syste.Locking.{DistributedLeaseManager, init}
use distributed_tickit_syste.Locking.Expiry.{IsConsistent, after_expiry-IsConsistent}
use distributed_tickit_syste.Locking.Invariant.{
  init-IsConsistent, acquire-IsConsistent, renew-IsConsistent, release-IsConsistent,
  validate-IsConsistent,
}

-- A call of the lease manager, with the readings of the clock and the fresh id that it gets.
pub data Call : Type 0 where
  acquire : (uuid : String) (now later seat_id : ℕ) (holder owner : String) (ttl : Option ℕ) → Call
  renew : (now later : ℕ) (lease_id : String) (ttl : Option ℕ) → Call
  release : (lease_id : String) → Call
  validate : (now : ℕ) (lease_id : String) (seat_id : Option ℕ) → Call
  get_active_lease : (now seat_id : ℕ) → Call
  expire_leases : (now : ℕ) → Call

-- The manager that a call leaves, whether it returns or raises.
unfoldable pub after : Call → DistributedLeaseManager → DistributedLeaseManager
after (acquire u n t s h o ttl) m = (Locking.acquire u n t s h o ttl m).1
after (renew n t i ttl) m = (Locking.renew n t i ttl m).1
after (release i) m = Locking.release i m
after (validate n i s) m = (Locking.validate n i s m).1
after (get_active_lease n s) m = (Locking.get_active_lease n s m).1
after (expire_leases n) m = (Locking.expire_leases n m).1

-- `uuid.uuid4()` does not return the id of a lease that is still held.
abbrev pub IsFresh : Call → DistributedLeaseManager → Type 0
IsFresh (acquire u n t s h o ttl) m = lookup u m.leases_by_id ≡ none
IsFresh _ m = Unit

pub after-IsConsistent :
    (call : Call) (m : DistributedLeaseManager)
    → IsConsistent m
    → IsFresh call m
    → IsConsistent (after call m)
unfolding after Locking.get_active_lease Locking.expire_leases
after-IsConsistent (acquire u n t s h o ttl) m c fresh =
    acquire-IsConsistent m c u n t s h o ttl fresh
after-IsConsistent (renew n t i ttl) m c _ = renew-IsConsistent m c n t i ttl
after-IsConsistent (release i) m c _ = release-IsConsistent m c i
after-IsConsistent (validate n i s) m c _ = validate-IsConsistent m c n i s
after-IsConsistent (get_active_lease n s) m c _ = after_expiry-IsConsistent n m c
after-IsConsistent (expire_leases n) m c _ = after_expiry-IsConsistent n m c

-- The managers that calls can lead to, in any order and with any readings of the clock.
pub data Reach (ttl : ℕ) : DistributedLeaseManager → Type 0 where
  start : Reach ttl (init ttl)
  next :
      {m : DistributedLeaseManager} (call : Call)
      → Reach ttl m
      → IsFresh call m
      → Reach ttl (after call m)

-- Whatever calls were made, the map by seat and the map by id hold the same leases, each under
-- its own seat and its own id, and no seat stands twice, as long as no id of a held lease is
-- given out again.
pub Reach-IsConsistent : {ttl : ℕ} {m : DistributedLeaseManager} → Reach ttl m → IsConsistent m
Reach-IsConsistent {ttl} start = init-IsConsistent ttl
Reach-IsConsistent (next {m} call r fresh) = after-IsConsistent call m (Reach-IsConsistent r) fresh
