-- ===== src/Sync/StateStore.antt =====
-- synchronization/state_store.py: the seats of one server, each with the version of its last change.
use distributed_tickit_syste.Common.{
  ℕ, zero, suc, ◌+◌, ◌≤◌, ◌<◌, String, ◌≡◌, Bool, true, false, Option, none, some, List, [], arith,
  ite, ℕ_discrete, nat_key, Option-cases, inl, inr, filter, length,
}
use distributed_tickit_syste.Common.Dict.{Dict, lookup, insert, values, lookup-insert}
use distributed_tickit_syste.Sync.SeatState.{
  SeatStateType, available, locked, reserved, failed, SeatState,
}

pub record StateStore : Type 0 where
  pub server_id : String
  pub seats : Dict ℕ SeatState
  pub version_clock : ℕ

unfoldable pub init : String → StateStore
init server_id = record { server_id = server_id; seats = []; version_clock = 0 }

unfoldable pub next_version : StateStore → ℕ × StateStore
next_version s = (s.version_clock + 1, record s { version_clock = s.version_clock + 1 })

-- A change of one seat, under a version of its own.
abbrev pub stamped : (seat_id : ℕ) → SeatStateType → (now owner : String) → ℕ → SeatState
stamped seat_id state now owner version = record {
  seat_id = seat_id;
  state = state;
  last_updated = now;
  owner = owner;
  version = version;
}

-- The rounds of the loop of `initialize_seats` that are left, from `seat_id` on. `now` has the
-- time stamp that each seat gets.
unfoldable pub initialize_from : (rounds seat_id : ℕ) → (ℕ → String) → StateStore → StateStore
unfolding next_version
initialize_from zero seat_id now s = s
initialize_from (suc rounds) seat_id now s =
    let (version, s') = next_version s in
    initialize_from rounds (suc seat_id) now (record s' {
      seats = insert seat_id (stamped seat_id available (now seat_id) "" version) s'.seats;
    })

unfoldable pub initialize_seats : (seat_count : ℕ) → (ℕ → String) → StateStore → StateStore
unfolding initialize_from
initialize_seats seat_count now s = initialize_from seat_count 1 now s

unfoldable pub get_seat : ℕ → StateStore → Option SeatState
get_seat seat_id s = lookup seat_id s.seats

-- `now` is the reading `datetime.utcnow().isoformat()`.
unfoldable pub update_seat :
    (seat_id : ℕ)
    → SeatStateType
    → (owner now : String) → StateStore
    → Option SeatState × StateStore
unfolding next_version
update_seat seat_id new_state owner now s = elim (lookup seat_id s.seats) [
  | none ↦ (none, s)
  | some _ ↦
      let (version, s') = next_version s in
      let updated = stamped seat_id new_state now owner version in
      (some updated, record s' { seats = insert seat_id updated s'.seats })
]

unfoldable pub list_seats : StateStore → List SeatState
list_seats s = values s.seats

abbrev same_state : SeatStateType → SeatStateType → Bool
same_state available available = true
same_state locked locked = true
same_state reserved reserved = true
same_state failed failed = true
same_state _ _ = false

unfoldable pub list_by_state : SeatStateType → StateStore → List SeatState
list_by_state state s = filter (λ seat. same_state seat.state state) (values s.seats)

unfoldable pub get_available_count : StateStore → ℕ
unfolding list_by_state
get_available_count s = length (list_by_state available s)

unfoldable pub get_locked_count : StateStore → ℕ
unfolding list_by_state
get_locked_count s = length (list_by_state locked s)

unfoldable pub get_reserved_count : StateStore → ℕ
unfolding list_by_state
get_reserved_count s = length (list_by_state reserved s)

-- Every seat stands under its own number, with a version that the clock has passed.
pub record IsValid (s : StateStore) : Type 0 where
  pub entry :
      (k : ℕ) (seat : SeatState)
      → lookup k s.seats ≡ some seat
      → (seat.seat_id ≡ k) × (seat.version ≤ s.version_clock)

pub init-IsValid : (server_id : String) → IsValid (init server_id)
unfolding init lookup
init-IsValid server_id = record { entry = λ k seat e. cc }

initialize_from-IsValid :
    (rounds seat_id : ℕ) (now : ℕ → String) (s : StateStore)
    → IsValid s
    → IsValid (initialize_from rounds seat_id now s)
unfolding initialize_from
initialize_from-IsValid zero seat_id now s v = v
initialize_from-IsValid (suc rounds) seat_id now s v =
    let seat = stamped seat_id available (now seat_id) "" (s.version_clock + 1) in
    initialize_from-IsValid rounds (suc seat_id) now
      (record s { version_clock = s.version_clock + 1; seats = insert seat_id seat s.seats })
      (record {
        entry = λ k x e. ground (arith, lookup-insert k seat_id seat s.seats, v.entry k x);
      })

-- `initialize_seats` keeps every seat under its own number and every version within the clock.
pub initialize_seats-IsValid :
    (seat_count : ℕ) (now : ℕ → String) (s : StateStore)
    → IsValid s
    → IsValid (initialize_seats seat_count now s)
unfolding initialize_seats
initialize_seats-IsValid seat_count now s v = initialize_from-IsValid seat_count 1 now s v

-- `update_seat` keeps a store in which every seat stands under its own number with a version that
-- the clock has reached.
pub update_seat-IsValid :
    (seat_id : ℕ) (state : SeatStateType) (owner now : String) (s : StateStore)
    → IsValid s
    → IsValid (update_seat seat_id state owner now s).1
unfolding update_seat
update_seat-IsValid seat_id state owner now s v = elim (Option-cases (lookup seat_id s.seats)) [
  | inl missing ↦ rw (missing, update_seat) v
  | inr (old, e) ↦
      rw (e, update_seat)
        (record {
          entry = λ k x at. ground (
            arith,
            lookup-insert k seat_id (stamped seat_id state now owner (s.version_clock + 1)) s.seats,
            v.entry k x,
          );
        })
]

-- A seat that a valid store has gets the new state and owner, under a version above every version
-- in the store, and all other seats stay as they are. A seat that it does not have is reported,
-- and the seats and the clock stay as they are.
pub update_seat_lem :
    (seat_id : ℕ) (state : SeatStateType) (owner now : String) (s : StateStore) (k : ℕ)
    (x : SeatState)
    → IsValid s
    → lookup k s.seats ≡ some x
    → let new = stamped seat_id state now owner (s.version_clock + 1) in
      let old = lookup seat_id s.seats in
      let (result, s') = update_seat seat_id state owner now s in
      (result ≡ elim old [ none ↦ none | some _ ↦ some new ])
      × (s'.version_clock ≡ elim old [ none ↦ s.version_clock | some _ ↦ s.version_clock + 1 ])
      × (lookup k s'.seats ≡ ite (ℕ_discrete seat_id k) (some new) (some x))
      × (x.version < new.version)
unfolding update_seat
update_seat_lem seat_id state owner now s k x v at = ground (
  arith,
  v.entry k x at,
  lookup-insert k seat_id (stamped seat_id state now owner (s.version_clock + 1)) s.seats,
)
