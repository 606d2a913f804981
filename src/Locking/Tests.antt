-- ===== src/Locking/Tests.antt =====
-- Runs of the lease manager at concrete inputs.
use distributed_tickit_syste.Common.{
  String, string_same, ◌≡◌, ◌≢◌, ◌⊎◌, refl, none, some, List, [], ◌∷◌, nat_key, string_key,
  ℕ_discrete,
}
use distributed_tickit_syste.Common.Dict.{lookup, insert, erase, values}
use distributed_tickit_syste.Locking.{
  Lease, ok, raise, conflict, not_active, wrong_seat, DistributedLeaseManager, init, acquire, renew,
  release, validate, expire_leases, expire_locked, expired_at, drop_lease, remaining_seconds,
  round_seconds, Lease-discrete,
}
use distributed_tickit_syste.Locking.Expiry.{IsConsistent}
use distributed_tickit_syste.Locking.Invariant.{init-IsConsistent, acquire-IsConsistent}
use distributed_tickit_syste.Locking.Exclusion.{acquire_lem, acquire-is_exclusive, validate-renew}
use distributed_tickit_syste.Locking.Table.{answers}
use distributed_tickit_syste.Locking.Table.Refinement.{run, run-answers}
use distributed_tickit_syste.Locking.Trace.{start, next, Reach-IsConsistent, Call, after}

abbrev empty : DistributedLeaseManager
empty = record { default_ttl_seconds = 30000; leases_by_seat = []; leases_by_id = [] }

abbrev lease_a : Lease
lease_a = record {
  lease_id = "a";
  seat_id = 7;
  holder = "Server 1";
  owner = "Ann";
  expires_at = 31000;
}

abbrev held : DistributedLeaseManager
held = record empty { leases_by_seat = (7, lease_a) ∷ []; leases_by_id = ("a", lease_a) ∷ [] }

program : Unit {0}
unfolding acquire renew release validate expire_leases expire_locked expired_at drop_lease init
    lookup insert erase values remaining_seconds round_seconds Lease-discrete ℕ_discrete string_same
program = tt

acquire-empty : acquire "a" 1000 1000 7 "Server 1" "Ann" none empty ≡ (ok lease_a, held)
unfolding program
acquire-empty = refl

acquire-held :
    acquire "b" 2000 2000 7 "Server 2" "Bob" none held ≡ (raise (conflict 7 "Server 1" 29), held)
unfolding program
acquire-held = refl

empty-IsConsistent : IsConsistent empty
unfolding init
empty-IsConsistent = init-IsConsistent 30000

held-IsConsistent : IsConsistent held
unfolding program
held-IsConsistent =
    acquire-IsConsistent empty empty-IsConsistent "a" 1000 1000 7 "Server 1" "Ann" none refl

abbrev first_call : Call
first_call = Call.acquire "a" 1000 1000 7 "Server 1" "Ann" none

Reach-IsConsistent_example : IsConsistent (after first_call (init 30000))
unfolding program
Reach-IsConsistent_example = Reach-IsConsistent (next first_call start refl)

-- Bob asks for the seat that Ann holds.
acquire_lem_example :
    ((acquire "b" 2000 2000 7 "Server 2" "Bob" none held).0 ≡ raise (conflict 7 "Server 1" 29))
    × (lookup 7 (acquire "b" 2000 2000 7 "Server 2" "Bob" none held).1.leases_by_seat
        ≡ some lease_a)
unfolding program
acquire_lem_example = acquire_lem held held-IsConsistent "b" 2000 2000 7 "Server 2" "Bob" none 7

-- Ann has the seat until 31000, and no other id is of any use.
acquire-is_exclusive_example :
    ((validate 20000 "a" (some 7) (acquire "a" 1000 1000 7 "Server 1" "Ann" none (init 30000)).1).0
      ≡ ok lease_a)
    × ((i : String)
        → i ≢ "a"
        → let m' = (acquire "a" 1000 1000 7 "Server 1" "Ann" none (init 30000)).1 in
          ((validate 20000 i (some 7) m').0 ≡ raise (not_active i))
          ⊎ ((validate 20000 i (some 7) m').0 ≡ raise (wrong_seat i 7)))
unfolding program
acquire-is_exclusive_example =
    acquire-is_exclusive {default_ttl = 30000} start "a" 1000 1000 7 "Server 1" "Ann" none lease_a
      refl refl 20000

-- Renewed for half a second, Ann's lease ends before its first expiry.
abbrev short_lease : Lease
short_lease = record lease_a { expires_at = 2500 }

validate-renew_example :
    ((old : Lease) × (lookup "a" held.leases_by_id ≡ some old)
      × (short_lease ≡ record old { expires_at = 2500 }))
    × ((validate 3000 "a" (some 7) (renew 2000 2000 "a" (some 500) held).1).0
        ≡ raise (not_active "a"))
unfolding program
validate-renew_example =
    validate-renew held held-IsConsistent 2000 2000 "a" (some 500) short_lease 3000 refl

-- Bob is refused while Ann holds the seat, and gets it when her renewed lease is over.
abbrev calls : List Call
calls =
    first_call
    ∷ Call.acquire "b" 2000 2000 7 "Server 2" "Bob" none
    ∷ Call.renew 20000 20000 "a" none
    ∷ Call.validate 40000 "a" (some 7)
    ∷ Call.expire_leases 60000
    ∷ Call.acquire "c" 61000 61000 7 "Server 2" "Bob" (some 500)
    ∷ Call.release "c"
    ∷ Call.get_active_lease 61100 7
    ∷ []

run-answers_example : run calls (init 30000) ≡ answers 30000 calls []
unfolding program after
run-answers_example =
    run-answers 30000 calls (refl, (refl, (tt, (tt, (tt, (refl, (tt, (tt, tt))))))))
