-- ===== src/Sync/Tests.antt =====
-- Runs of the replication at concrete inputs.
use distributed_tickit_syste.Common.{
  ℕ, ◌≤◌, ◌<◌, String, ◌≡◌, refl, none, some, Option, ite, true, [], ◌∷◌, arith, ℕ_discrete,
  string_same, nat_key,
}
use distributed_tickit_syste.Common.Dict.{lookup, insert}
use distributed_tickit_syste.Sync.SeatState.{SeatState, available, locked, reserved}
use distributed_tickit_syste.Sync.StateStore.{
  StateStore, stamped, init, initialize_seats, update_seat, IsValid, initialize_seats-IsValid,
  init-IsValid,
}
use distributed_tickit_syste.Common.Decimal.{str}
use distributed_tickit_syste.Sync.Persistence.{
  store_to_dict, store_from_dict, store_from_dict-store_to_dict,
}
use distributed_tickit_syste.Sync.Replicator.{StateReplicator, apply_remote_update}
use distributed_tickit_syste.Sync.Convergence.{apply_all, seat_at}
use distributed_tickit_syste.Sync.Eventual.{Change, change_all, eventual_consistency}
use distributed_tickit_syste.Sync.Simulator
use distributed_tickit_syste.Sync.Simulator.{
  Timer, EventualConsistencySimulator, timers_of, broadcast_with_delay, schedule_all, schedule,
  is_finished, deliver_update, get_pending_count,
}
use distributed_tickit_syste.Sync.Pending.{deliver_in_turn, deliver_in_turn_lem}
use distributed_tickit_syste.Sync.Clock.{change_after_remote_is_lost}
use mathlib.Core.List.{Memᴰ}

program : Unit {0}
unfolding init initialize_seats update_seat lookup insert ℕ_discrete string_same apply_remote_update
    apply_all change_all
program = tt

abbrev stamps : ℕ → String
stamps k = "t0"

abbrev seat_1 : SeatState
seat_1 = stamped 1 available "t0" "" 1

abbrev seat_2 : SeatState
seat_2 = stamped 2 available "t0" "" 2

abbrev two_seats : StateStore
two_seats = record {
  server_id = "Server 1";
  seats = (1, seat_1) ∷ (2, seat_2) ∷ [];
  version_clock = 2;
}

initialize_two : initialize_seats 2 stamps (init "Server 1") ≡ two_seats
unfolding program
initialize_two = refl

two_seats-IsValid : IsValid two_seats
unfolding program
two_seats-IsValid = initialize_seats-IsValid 2 stamps (init "Server 1") (init-IsValid "Server 1")

abbrev replica : StateReplicator
replica = record {
  local_store = record two_seats { server_id = "Server 2" };
  peers = "Server 1" ∷ [];
  on_replicate_callback = none;
}

abbrev remote : SeatState
remote = stamped 1 locked "t1" "Ann" 7

abbrev lock : Change
lock = record { seat_id = 1; state = locked; owner = "Ann"; now = "t1" }

abbrev confirm : Change
confirm = record { seat_id = 1; state = reserved; owner = "Ann"; now = "t2" }

abbrev locked_1 : SeatState
locked_1 = stamped 1 locked "t1" "Ann" 3

abbrev reserved_1 : SeatState
reserved_1 = stamped 1 reserved "t2" "Ann" 4

replica_is_old : (x : SeatState) → seat_at 1 replica ≡ some x → x.version ≤ 2
unfolding program
replica_is_old x e = ground arith

-- The two updates arrive in the wrong order, the later one twice.
to_sent :
    (x : SeatState)
    → Memᴰ x (locked_1 ∷ reserved_1 ∷ [])
    → Memᴰ x (reserved_1 ∷ locked_1 ∷ reserved_1 ∷ [])
to_sent x (Memᴰ.head e) = Memᴰ.tail (Memᴰ.head e)
to_sent x (Memᴰ.tail (Memᴰ.head e)) = Memᴰ.head e
to_sent x (Memᴰ.tail (Memᴰ.tail m)) = elim m [ ]

from_sent :
    (x : SeatState)
    → Memᴰ x (reserved_1 ∷ locked_1 ∷ reserved_1 ∷ [])
    → Memᴰ x (locked_1 ∷ reserved_1 ∷ [])
from_sent x (Memᴰ.head e) = Memᴰ.tail (Memᴰ.head e)
from_sent x (Memᴰ.tail (Memᴰ.head e)) = Memᴰ.head e
from_sent x (Memᴰ.tail (Memᴰ.tail m)) = Memᴰ.tail m

eventual_consistency_example :
    seat_at 1 (apply_all (reserved_1 ∷ locked_1 ∷ reserved_1 ∷ []) replica) ≡ some reserved_1
unfolding program
eventual_consistency_example =
    eventual_consistency (lock ∷ confirm ∷ []) two_seats replica
      (reserved_1 ∷ locked_1 ∷ reserved_1 ∷ []) 1 locked_1 two_seats-IsValid replica_is_old to_sent
      from_sent (Memᴰ.head refl) refl

change_after_remote_is_lost_example :
    (seat_at 1 (apply_remote_update remote replica) ≡ some remote)
    × ((update_seat 1 reserved "Bob" "t3" (apply_remote_update remote replica).local_store).0
        ≡ some (stamped 1 reserved "t3" "Bob" 3))
    × (3 < 7)
    × (seat_at 1 (
          apply_remote_update
            (stamped 1 reserved "t3" "Bob" 3)
            (apply_remote_update remote replica))
        ≡ some remote)
unfolding program
change_after_remote_is_lost_example =
    change_after_remote_is_lost remote replica (apply_remote_update remote replica) reserved "Bob"
      "t3" (record { entry = two_seats-IsValid.entry }) (omega arith) refl

-- Reads the two numbers that are needed.
abbrev some_int : String → Option ℕ
some_int text = ite (string_same text "1") (some 1) (ite (string_same text "2") (some 2) none)

store_from_dict-store_to_dict_example :
    store_from_dict some_int "t9" (store_to_dict two_seats) (init "Server 2") ≡ (true, two_seats)
unfolding str lookup string_same ℕ_discrete
store_from_dict-store_to_dict_example =
    store_from_dict-store_to_dict some_int "t9" two_seats (init "Server 2") (refl, (refl, tt))
      (refl, (refl, tt))

abbrev no_timers : EventualConsistencySimulator
no_timers = Simulator.init ("Server 2" ∷ "Server 3" ∷ []) 150 900

abbrev two_timers : EventualConsistencySimulator
two_timers = broadcast_with_delay (λ s. 200) locked_1 no_timers

abbrev first_timer : Timer
first_timer = record { number = 0; peer_id = "Server 2"; seat = locked_1; delay_ms = 200 }

abbrev second_timer : Timer
second_timer = record { number = 1; peer_id = "Server 3"; seat = locked_1; delay_ms = 200 }

-- Both peers have the seat, and the timer of the second is pending for ever.
deliver_in_turn_lem_example :
    (timers_of 1 (deliver_in_turn (first_timer ∷ second_timer ∷ []) two_timers) ≡ second_timer ∷ [])
    × Memᴰ second_timer (timers_of 1 (deliver_in_turn (first_timer ∷ second_timer ∷ []) two_timers))
    × (1 ≤ get_pending_count (deliver_in_turn (first_timer ∷ second_timer ∷ []) two_timers))
unfolding program Simulator.init broadcast_with_delay schedule_all schedule is_finished
deliver_in_turn_lem_example =
    deliver_in_turn_lem 1 (first_timer ∷ []) second_timer two_timers (refl, (refl, tt))
      (Memᴰ.tail (Memᴰ.head refl)) refl
