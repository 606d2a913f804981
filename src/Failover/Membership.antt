-- ===== src/Failover/Membership.antt =====
-- Who is in the cluster of a `RecoveryManager`.
use distributed_tickit_syste.Common.{
  ℕ, ◌≡◌, refl, ap, ◌∙◌, String, true, List, [], ◌∷◌, ◌++◌, ite, string_same, string_key, arith,
  Bool-cases, inl, inr,
}
use distributed_tickit_syste.Common.Dict.{lookup, lookup-insert}
use distributed_tickit_syste.Sync.SeatState.{SeatState}
use distributed_tickit_syste.Failover.Recovery.{
  RecoveryManager, init, contains, add, state_of, store, mark_recovered, join, rejoin_cluster,
  receive_sync_updates, is_in_cluster,
}

contains-append :
    (sid other : String) (members : List String)
    → contains other (members ++ sid ∷ [])
      ≡ ite (string_same sid other) true (contains other members)
unfolding contains
contains-append sid other [] = refl
contains-append sid other (x ∷ members) = ground (arith, contains-append sid other members)

contains-add :
    (sid other : String) (members : List String)
    → contains other (add sid members) ≡ ite (string_same sid other) true (contains other members)
contains-add sid other members = ground (arith, contains-append sid other members)

-- A server is a member exactly if its state says so, and then it has recovered.
pub record IsValid (m : RecoveryManager) : Type 0 where
  pub member : (sid : String) → contains sid m.cluster_members ≡ (state_of sid m).joined_cluster
  pub recovered :
      (sid : String) → (state_of sid m).joined_cluster ≡ true → (state_of sid m).recovered ≡ true

pub init-IsValid : IsValid init
unfolding contains lookup
init-IsValid = record { member = λ sid. refl; recovered = λ sid h. h }

mark_recovered-IsValid :
    (sid reason : String) (now : ℕ) (m : RecoveryManager)
    → IsValid m
    → IsValid (mark_recovered sid reason now m).1
unfolding mark_recovered
mark_recovered-IsValid sid reason now m v = record {
  member = λ other. ground (
    arith,
    v.member other,
    lookup-insert other sid
        (record (state_of sid m) {
          recovered = true;
          last_recovery_time = now;
          last_reason = reason;
        })
        m.states,
  );
  recovered = λ other h. ground (
    arith,
    v.recovered other,
    lookup-insert other sid
        (record (state_of sid m) {
          recovered = true;
          last_recovery_time = now;
          last_reason = reason;
        })
        m.states,
  );
}

join-IsValid :
    (sid : String) (m : RecoveryManager)
    → (state_of sid m).recovered ≡ true
    → IsValid m
    → IsValid (join sid m).1
unfolding join
join-IsValid sid m up v =
    let joined = record (state_of sid m) { joined_cluster = true } in
    record {
      member = λ other. ground (
        arith,
        v.member other,
        lookup-insert other sid joined m.states,
        contains-add sid other m.cluster_members,
      );
      recovered =
          λ other h. ground (arith, v.recovered other, lookup-insert other sid joined m.states);
    }

mark_recovered-recovers :
    (sid reason : String) (now : ℕ) (m : RecoveryManager)
    → (state_of sid (mark_recovered sid reason now m).1).recovered ≡ true
unfolding mark_recovered
mark_recovered-recovers sid reason now m = ground (
  arith,
  lookup-insert sid sid
      (record (state_of sid m) { recovered = true; last_recovery_time = now; last_reason = reason })
      m.states,
)

mark_recovered-members :
    (sid reason other : String) (now : ℕ) (m : RecoveryManager)
    → is_in_cluster other (mark_recovered sid reason now m).1 ≡ is_in_cluster other m
unfolding mark_recovered is_in_cluster
mark_recovered-members sid reason other now m = refl

join-members :
    (sid other : String) (m : RecoveryManager)
    → is_in_cluster other (join sid m).1 ≡ ite (string_same sid other) true (is_in_cluster other m)
unfolding join is_in_cluster
join-members sid other m = contains-add sid other m.cluster_members

-- `rejoin_cluster` keeps the states and the members in agreement, and adds the server to the
-- members and no other.
pub rejoin_cluster_lem :
    (sid : String) (now : ℕ) (m : RecoveryManager)
    → IsValid m
    → IsValid (rejoin_cluster sid now m).1
      × ((other : String)
          → is_in_cluster other (rejoin_cluster sid now m).1
            ≡ ite (string_same sid other) true (is_in_cluster other m))
unfolding rejoin_cluster
rejoin_cluster_lem sid now m v = elim (Bool-cases (state_of sid m).recovered) [
  | inl up ↦ rw up (join-IsValid sid m up v, λ other. join-members sid other m)
  | inr down ↦
      let marked = (mark_recovered sid "rejoin requested" now m).1 in
      rw down (
        join-IsValid sid marked (mark_recovered-recovers sid "rejoin requested" now m)
            (mark_recovered-IsValid sid "rejoin requested" now m v),
        λ other.
            join-members sid other marked
            ∙ ap (λ b. ite (string_same sid other) true b)
                (mark_recovered-members sid "rejoin requested" other now m),
      )
]

seen_again :
    (sid : String) (m : RecoveryManager)
    → (state_of sid m).joined_cluster ≡ true
    → IsValid m
    → IsValid (store sid (state_of sid m) m)
      × ((other : String)
          → is_in_cluster other (store sid (state_of sid m) m)
            ≡ ite (string_same sid other) true (is_in_cluster other m))
unfolding is_in_cluster
seen_again sid m joined v = (
  record {
    member =
        λ other. ground (arith, v.member other, lookup-insert other sid (state_of sid m) m.states);
    recovered = λ other h.
        ground (arith, v.recovered other, lookup-insert other sid (state_of sid m) m.states);
  },
  λ other. ground (arith, v.member sid),
)

-- `receive_sync_updates` keeps the states and the members in agreement: whether or not the server
-- had joined before, it is a member afterwards, and no other server joins or leaves.
pub receive_sync_updates_lem :
    (sid : String) (updates : List SeatState) (now : ℕ) (m : RecoveryManager)
    → IsValid m
    → IsValid (receive_sync_updates sid updates now m).1
      × ((other : String)
          → is_in_cluster other (receive_sync_updates sid updates now m).1
            ≡ ite (string_same sid other) true (is_in_cluster other m))
unfolding receive_sync_updates
receive_sync_updates_lem sid updates now m v = elim (Bool-cases (state_of sid m).joined_cluster) [
  | inl joined ↦ rw joined (seen_again sid m joined v)
  | inr new ↦ rw new (rejoin_cluster_lem sid now m v)
]
