-- ===== src/Sync/Eventual.antt =====
-- The replicas end up with the primary's seats once its updates have been delivered.
use distributed_tickit_syste.Common.{
  ℕ, ◌+◌, ◌≤◌, ◌<◌, String, ◌≡◌, refl, sym, ◌∙◌, ap, ◌⊎◌, inl, inr, Option, none, some, List, [],
  ◌∷◌, arith, nat_key, Option-cases,
}
use distributed_tickit_syste.Common.Dict.{lookup, insert, lookup-insert}
use distributed_tickit_syste.Sync.SeatState.{SeatState, SeatStateType}
use distributed_tickit_syste.Sync.StateStore.{StateStore, stamped, update_seat, IsValid}
use distributed_tickit_syste.Sync.Replicator.{StateReplicator, apply_remote_update}
use distributed_tickit_syste.Sync.Convergence.{
  apply_all, seat_at, seat_at-apply, IsVersioned, converge,
}
use mathlib.Core.List.{Memᴰ}

-- A change that a client of the primary makes to a seat.
pub record Change : Type 0 where
  pub seat_id : ℕ
  pub state : SeatStateType
  pub owner : String
  pub now : String

abbrev change : Change → StateStore → Option SeatState × StateStore
change c s = update_seat c.seat_id c.state c.owner c.now s

abbrev prepend : Option SeatState → List SeatState → List SeatState
prepend none us = us
prepend (some u) us = u ∷ us

-- The changes made one after another, and what is broadcast: every update that was made.
unfoldable pub change_all : List Change → StateStore → List SeatState × StateStore
change_all [] s = ([], s)
change_all (c ∷ cs) s =
    let (updated, s') = change c s in let (us, s'') = change_all cs s' in (prepend updated us, s'')

-- The update that a change makes, and the store that it leaves.
abbrev made : Change → StateStore → SeatState
made c s = stamped c.seat_id c.state c.now c.owner (s.version_clock + 1)

abbrev changed : Change → StateStore → StateStore
changed c s = record s {
  version_clock = s.version_clock + 1;
  seats = insert c.seat_id (made c s) s.seats;
}

change-cases :
    (c : Change) (s : StateStore)
    → (change c s ≡ (none, s))
      ⊎ ((old : SeatState) × (lookup c.seat_id s.seats ≡ some old)
          × (change c s ≡ (some (made c s), changed c s)))
unfolding update_seat
change-cases c s = elim (Option-cases (lookup c.seat_id s.seats)) [
  | inl missing ↦ inl (rw (missing, update_seat) refl)
  | inr (old, at) ↦ inr (old, at, rw (at, update_seat) refl)
]

changed-IsValid : (c : Change) (s : StateStore) → IsValid s → IsValid (changed c s)
changed-IsValid c s v = record {
  entry = λ k x at. ground (arith, lookup-insert k c.seat_id (made c s) s.seats, v.entry k x);
}

-- Every update that is broadcast is newer than the clock was.
broadcast_newer :
    (cs : List Change) (s : StateStore) (u : SeatState)
    → Memᴰ u (change_all cs s).0
    → s.version_clock < u.version
unfolding change_all
broadcast_newer [] s u m = elim m [ ]
broadcast_newer (c ∷ cs) s u m = elim (change-cases c s) [
  | inl e ↦ broadcast_newer cs s u (rw e at m)
  | inr (old, at, e) ↦ newer_of (broadcast_newer cs (changed c s) u) (rw e at m)
]
  where
    newer_of :
        (Memᴰ u (change_all cs (changed c s)).0 → (changed c s).version_clock < u.version)
        → Memᴰ u (made c s ∷ (change_all cs (changed c s)).0)
        → s.version_clock < u.version
    newer_of rest (Memᴰ.head p) = rw p (omega arith)
    newer_of rest (Memᴰ.tail q) = let h = rest q in omega arith

-- Updates that are broadcast have different versions.
broadcast-IsVersioned : (cs : List Change) (s : StateStore) → IsVersioned (change_all cs s).0
unfolding change_all
broadcast-IsVersioned [] s u v mu mv own same = elim mu [ ]
broadcast-IsVersioned (c ∷ cs) s u v mu mv own same = elim (change-cases c s) [
  | inl e ↦ broadcast-IsVersioned cs s u v (rw e at mu) (rw e at mv) own same
  | inr (old, at, e) ↦
      first_or_rest (broadcast_newer cs (changed c s)) (broadcast-IsVersioned cs (changed c s))
        (rw e at mu) (rw e at mv)
]
  where
    first_or_rest :
        ((w : SeatState) → Memᴰ w (change_all cs (changed c s)).0 → s.version_clock + 1 < w.version)
        → IsVersioned (change_all cs (changed c s)).0
        → Memᴰ u (made c s ∷ (change_all cs (changed c s)).0)
        → Memᴰ v (made c s ∷ (change_all cs (changed c s)).0)
        → u ≡ v
    first_or_rest newer rest (Memᴰ.head p) (Memᴰ.head q) = p ∙ sym q
    first_or_rest newer rest (Memᴰ.head p) (Memᴰ.tail q) =
        absurd (omega (arith, newer v q, ap (λ (w : SeatState). w.version) p))
    first_or_rest newer rest (Memᴰ.tail p) (Memᴰ.head q) =
        absurd (omega (arith, newer u p, ap (λ (w : SeatState). w.version) q))
    first_or_rest newer rest (Memᴰ.tail p) (Memᴰ.tail q) = rest u v p q own same

-- On a replica that has the primary's seats, a broadcast update has the effect of the change.
made-applies :
    (c : Change) (s : StateStore) (r : StateReplicator) (old : SeatState)
    → IsValid s
    → ((k : ℕ) → seat_at k r ≡ lookup k s.seats)
    → lookup c.seat_id s.seats ≡ some old
    → (k : ℕ) → seat_at k (apply_remote_update (made c s) r) ≡ lookup k (changed c s).seats
made-applies c s r old v same at k = ground (
  arith,
  seat_at-apply k (made c s) r,
  lookup-insert k c.seat_id (made c s) s.seats,
  same k,
  same c.seat_id,
  v.entry c.seat_id old at,
)

-- The primary's own seats are what its broadcast makes of the seats that it had.
broadcast-primary :
    (cs : List Change) (s : StateStore) (r : StateReplicator)
    → IsValid s
    → ((k : ℕ) → seat_at k r ≡ lookup k s.seats)
    → (k : ℕ) → seat_at k (apply_all (change_all cs s).0 r) ≡ lookup k (change_all cs s).1.seats
unfolding change_all apply_all
broadcast-primary [] s r v same k = same k
broadcast-primary (c ∷ cs) s r v same k = elim (change-cases c s) [
  | inl e ↦ rw e (broadcast-primary cs s r v same k)
  | inr (old, at, e) ↦ rw e (
      broadcast-primary cs (changed c s) (apply_remote_update (made c s) r) (changed-IsValid c s v)
        (made-applies c s r old v same at) k)
]

-- Eventual consistency. A valid primary makes any changes and broadcasts an update for each that
-- it made. A replica whose own copy of seat `k` was not newer than the primary's clock, and which
-- is sent exactly these updates, in any order and each any number of times but at least once, ends
-- up with the primary's copy of `k`, if an update of `k` was among them.
pub eventual_consistency :
    (cs : List Change) (primary : StateStore) (replica : StateReplicator) (sent : List SeatState)
    (k : ℕ) (u : SeatState)
    → IsValid primary
    → ((x : SeatState) → seat_at k replica ≡ some x → x.version ≤ primary.version_clock)
    → ((x : SeatState) → Memᴰ x (change_all cs primary).0 → Memᴰ x sent)
    → ((x : SeatState) → Memᴰ x sent → Memᴰ x (change_all cs primary).0)
    → Memᴰ u (change_all cs primary).0
    → u.seat_id ≡ k
    → seat_at k (apply_all sent replica) ≡ lookup k (change_all cs primary).1.seats
eventual_consistency cs primary replica sent k u v old to from m own =
    let itself : StateReplicator = record {
      local_store = primary;
      peers = [];
      on_replicate_callback = none;
    } in
    sym (
      converge primary.version_clock k (change_all cs primary).0 sent itself replica u
        (broadcast-IsVersioned cs primary) (broadcast_newer cs primary) (λ x at. (v.entry k x at).1)
        old to from m own)
    ∙ broadcast-primary cs primary itself v (λ j. refl) k
