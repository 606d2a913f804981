-- ===== src/Sync/Convergence.antt =====
-- Replicas that receive the same updates agree, whatever the order and the repetitions.
use distributed_tickit_syste.Common.{
  ℕ, ◌≤◌, ◌<◌, ◌≡◌, sym, ◌∙◌, ap, ◌⊎◌, inl, inr, Option, none, some, List, [], ◌∷◌, arith, ite,
  ℕ_discrete, nat_key, Option-cases,
}
use distributed_tickit_syste.Common.Dict.{lookup}
use distributed_tickit_syste.Sync.SeatState.{SeatState}
use distributed_tickit_syste.Sync.Replicator.{
  StateReplicator, apply_remote_update, apply_remote_update_lem, resolve,
}
use mathlib.Core.List.{Memᴰ}
use mathlib.Core.Path.{subst}

-- Updates applied one after another.
unfoldable pub apply_all : List SeatState → StateReplicator → StateReplicator
apply_all [] r = r
apply_all (u ∷ us) r = apply_all us (apply_remote_update u r)

abbrev pub seat_at : ℕ → StateReplicator → Option SeatState
seat_at k r = lookup k r.local_store.seats

pub seat_at-apply :
    (k : ℕ) (u : SeatState) (r : StateReplicator)
    → seat_at k (apply_remote_update u r)
      ≡ ite (ℕ_discrete u.seat_id k) (some (resolve u (seat_at u.seat_id r))) (seat_at k r)
seat_at-apply k u r = (apply_remote_update_lem u r k).0

-- The seat has at least this version.
abbrev Reaches : Option SeatState → ℕ → Type 0
Reaches none v = ⊥
Reaches (some x) v = v ≤ x.version

Reaches-apply :
    (k v : ℕ) (u : SeatState) (r : StateReplicator)
    → Reaches (seat_at k r) v
    → Reaches (seat_at k (apply_remote_update u r)) v
Reaches-apply k v u r h = ground (arith, seat_at-apply k u r)

Reaches-apply_self :
    (u : SeatState) (r : StateReplicator)
    → Reaches (seat_at u.seat_id (apply_remote_update u r)) u.version
Reaches-apply_self u r = ground (arith, seat_at-apply u.seat_id u r)

Reaches-apply_all :
    (k v : ℕ) (us : List SeatState) (r : StateReplicator)
    → Reaches (seat_at k r) v
    → Reaches (seat_at k (apply_all us r)) v
unfolding apply_all
Reaches-apply_all k v [] r h = h
Reaches-apply_all k v (u ∷ us) r h =
    Reaches-apply_all k v us (apply_remote_update u r) (Reaches-apply k v u r h)

-- Once an update is delivered, its seat has its version or a later one.
delivered :
    {u : SeatState} {us : List SeatState} (r : StateReplicator)
    → Memᴰ u us
    → Reaches (seat_at u.seat_id (apply_all us r)) u.version
unfolding apply_all
delivered {u} r (Memᴰ.head {xs = us} e) =
    rw e (Reaches-apply_all _ _ us (apply_remote_update _ r) (Reaches-apply_self _ r))
delivered {u} r (Memᴰ.tail {x = v} m) = delivered (apply_remote_update v r) m

delivered_at :
    (k : ℕ) {u : SeatState} {us : List SeatState} (r : StateReplicator)
    → Memᴰ u us
    → u.seat_id ≡ k
    → Reaches (seat_at k (apply_all us r)) u.version
delivered_at k {u} {us} r m own =
    subst (λ j. Reaches (seat_at j (apply_all us r)) u.version) own (delivered r m)

source_apply :
    (k : ℕ) (u : SeatState) (r : StateReplicator) (x : SeatState)
    → seat_at k (apply_remote_update u r) ≡ some x
    → ((x ≡ u) × (u.seat_id ≡ k)) ⊎ (seat_at k r ≡ some x)
source_apply k u r x e = ground (arith, seat_at-apply k u r)

-- What a replica holds it was sent, or had from the start.
source :
    (k : ℕ) (us : List SeatState) (r : StateReplicator) (x : SeatState)
    → seat_at k (apply_all us r) ≡ some x
    → (Memᴰ x us × (x.seat_id ≡ k)) ⊎ (seat_at k r ≡ some x)
unfolding apply_all
source k [] r x e = inr e
source k (u ∷ us) r x e = elim (source k us (apply_remote_update u r) x e) [
  | inl (m, own) ↦ inl (Memᴰ.tail m, own)
  | inr at ↦ elim (source_apply k u r x at) [
    | inl (same, own) ↦ inl (Memᴰ.head same, rw same own)
    | inr old ↦ inr old
  ]
]

-- The updates of one seat have different versions.
abbrev pub IsVersioned : List SeatState → Type 0
IsVersioned us =
    (u v : SeatState)
    → Memᴰ u us
    → Memᴰ v us
    → u.seat_id ≡ v.seat_id
    → u.version ≡ v.version
    → u ≡ v

module _ (c k : ℕ) (us : List SeatState) (newer : (x : SeatState) → Memᴰ x us → c < x.version) where
  -- After an update of seat `k`, a replica whose own copy was older holds one of the updates.
  holds_update :
      (r : StateReplicator) (u : SeatState)
      → ((x : SeatState) → seat_at k r ≡ some x → x.version ≤ c)
      → Memᴰ u us
      → u.seat_id ≡ k
      → (x : SeatState) × (seat_at k (apply_all us r) ≡ some x) × Memᴰ x us × (x.seat_id ≡ k)
  holds_update r u old m own = elim (Option-cases (seat_at k (apply_all us r))) [
    | inl nothing ↦ absurd (rw nothing at (delivered_at k r m own))
    | inr (x, at) ↦ elim (source k us r x at) [
      | inl (sent, its) ↦ (x, at, sent, its)
      | inr kept ↦
          let reached : u.version ≤ x.version = rw at at (delivered_at k r m own) in
          absurd (omega (arith, old x kept, newer u m))
    ]
  ]

-- Two replicas that got the same updates, each at least once, in any order and with repetitions,
-- hold the same copy of every updated seat, if the updates of a seat have different versions and
-- are newer than what the replicas had of it.
pub converge :
    (c k : ℕ) (us vs : List SeatState) (a b : StateReplicator) (u : SeatState)
    → IsVersioned us
    → ((x : SeatState) → Memᴰ x us → c < x.version)
    → ((x : SeatState) → seat_at k a ≡ some x → x.version ≤ c)
    → ((x : SeatState) → seat_at k b ≡ some x → x.version ≤ c)
    → ((x : SeatState) → Memᴰ x us → Memᴰ x vs)
    → ((x : SeatState) → Memᴰ x vs → Memᴰ x us)
    → Memᴰ u us
    → u.seat_id ≡ k
    → seat_at k (apply_all us a) ≡ seat_at k (apply_all vs b)
converge c k us vs a b u versioned newer old_a old_b to from m own =
    let (x, at_a, sent, its) = holds_update c k us newer a u old_a m own in
    let (y, at_b, sent', its') =
      holds_update c k vs (λ z mz. newer z (from z mz)) b u old_b (to u m) own in
    let below : y.version ≤ x.version = rw at_a at (delivered_at k a (from y sent') its') in
    let above : x.version ≤ y.version = rw at_b at (delivered_at k b (to x sent) its) in
    let same : x ≡ y = versioned x y sent (from y sent') (its ∙ sym its') (omega arith) in
    at_a ∙ ap some same ∙ sym at_b
