-- ===== src/Sync/Clock.antt =====
-- The version clock of a replica does not see the versions of remote updates.
use distributed_tickit_syste.Common.{
  ℕ, ◌+◌, ◌<◌, String, ◌≡◌, some, arith, Option-cases, inl, inr, nat_key,
}
use distributed_tickit_syste.Common.Dict.{lookup}
use distributed_tickit_syste.Sync.SeatState.{SeatState, SeatStateType}
use distributed_tickit_syste.Sync.StateStore.{StateStore, stamped, update_seat, IsValid}
use distributed_tickit_syste.Sync.Replicator.{
  StateReplicator, apply_remote_update, apply_remote_update_lem,
}
use distributed_tickit_syste.Sync.Convergence.{seat_at, seat_at-apply}

-- A valid replica keeps a remote seat that is newer than its clock.
remote_is_kept :
    (seat : SeatState) (r : StateReplicator)
    → IsValid r.local_store
    → r.local_store.version_clock < seat.version
    → seat_at seat.seat_id (apply_remote_update seat r) ≡ some seat
remote_is_kept seat r v ahead = elim (Option-cases (seat_at seat.seat_id r)) [
  | inl missing ↦ ground (arith, seat_at-apply seat.seat_id seat r)
  | inr (old, at) ↦ ground (arith, seat_at-apply seat.seat_id seat r, v.entry seat.seat_id old at)
]

update_seat_of_lookup :
    (seat_id : ℕ) (state : SeatStateType) (owner now : String) (s : StateStore) (x : SeatState)
    (clock : ℕ)
    → lookup seat_id s.seats ≡ some x
    → s.version_clock ≡ clock
    → (update_seat seat_id state owner now s).0 ≡ some (stamped seat_id state now owner (clock + 1))
unfolding update_seat
update_seat_of_lookup seat_id state owner now s x clock at e = ground arith

-- A valid replica that takes over a remote seat whose version is more than one above its clock,
-- and then changes that seat itself, gives the change a lower version than the seat had: a server
-- that holds the remote seat drops the change.
pub change_after_remote_is_lost :
    (seat : SeatState) (r other : StateReplicator) (state : SeatStateType) (owner now : String)
    → IsValid r.local_store
    → r.local_store.version_clock + 1 < seat.version
    → seat_at seat.seat_id other ≡ some seat
    → let new = stamped seat.seat_id state now owner (r.local_store.version_clock + 1) in
      let r' = apply_remote_update seat r in
      (seat_at seat.seat_id r' ≡ some seat)
      × ((update_seat seat.seat_id state owner now r'.local_store).0 ≡ some new)
      × (new.version < seat.version)
      × (seat_at seat.seat_id (apply_remote_update new other) ≡ some seat)
change_after_remote_is_lost seat r other state owner now v ahead held =
    let kept = remote_is_kept seat r v (omega arith) in
    (
      kept,
      update_seat_of_lookup seat.seat_id state owner now (apply_remote_update seat r).local_store
          seat r.local_store.version_clock kept (apply_remote_update_lem seat r seat.seat_id).1,
      omega arith,
      ground (
        arith,
        seat_at-apply seat.seat_id
            (stamped seat.seat_id state now owner (r.local_store.version_clock + 1)) other,
      ),
    )
