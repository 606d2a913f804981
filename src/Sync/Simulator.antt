-- ===== src/Sync/Simulator.antt =====
-- synchronization/eventual_consistency.py: updates that reach the peers after a delay. A timer is
-- known by its number; `finished` has the timers whose threads have ended, which is what
-- `is_alive()` asks for. The random delay of each peer is an argument.
use distributed_tickit_syste.Common.{
  ℕ, suc, ◌+◌, String, Bool, true, false, not, none, some, List, [], ◌∷◌, ◌++◌, map, filter, length,
  ite, if◌then◌else◌, ℕ_discrete, nat_key,
}
use distributed_tickit_syste.Common.Dict.{Dict, lookup, insert, erase}
use distributed_tickit_syste.Sync.SeatState.{SeatState}

pub record Timer : Type 0 where
  pub number : ℕ
  pub peer_id : String
  pub seat : SeatState
  pub delay_ms : ℕ

pub record EventualConsistencySimulator : Type 0 where
  pub peers : List String
  pub min_delay_ms : ℕ
  pub max_delay_ms : ℕ
  pub pending : Dict ℕ (List Timer)
  pub on_sync_callback : Bool
  pub next_timer : ℕ
  pub finished : List ℕ

unfoldable pub init : List String → (min_delay_ms max_delay_ms : ℕ) → EventualConsistencySimulator
init peers min_delay_ms max_delay_ms = record {
  peers = peers;
  min_delay_ms = min_delay_ms;
  max_delay_ms = max_delay_ms;
  pending = [];
  on_sync_callback = false;
  next_timer = 0;
  finished = [];
}

unfoldable pub set_sync_callback : EventualConsistencySimulator → EventualConsistencySimulator
set_sync_callback s = record s { on_sync_callback = true }

-- `_pending[seat_id]`, where an absent entry counts as no timers.
abbrev pub timers_of : ℕ → EventualConsistencySimulator → List Timer
timers_of seat_id s = elim (lookup seat_id s.pending) [ none ↦ [] | some timers ↦ timers ]

-- One round of the loop in `broadcast_with_delay`.
unfoldable pub schedule :
    String
    → (delay_ms : ℕ) → SeatState
    → EventualConsistencySimulator
    → EventualConsistencySimulator
schedule peer_id delay_ms seat s =
    let timer : Timer = record {
      number = s.next_timer;
      peer_id = peer_id;
      seat = seat;
      delay_ms = delay_ms;
    } in
    record s {
      pending = insert seat.seat_id (timers_of seat.seat_id s ++ timer ∷ []) s.pending;
      next_timer = suc s.next_timer;
    }

-- The rounds for the peers that are left.
unfoldable pub schedule_all :
    List String
    → (String → ℕ)
    → SeatState
    → EventualConsistencySimulator
    → EventualConsistencySimulator
schedule_all [] delays seat s = s
schedule_all (p ∷ peers) delays seat s =
    schedule_all peers delays seat (schedule p (delays p) seat s)

unfoldable pub broadcast_with_delay :
    (String → ℕ) → SeatState → EventualConsistencySimulator → EventualConsistencySimulator
broadcast_with_delay delays seat s = schedule_all s.peers delays seat s

unfoldable pub is_finished : ℕ → List ℕ → Bool
is_finished number [] = false
is_finished number (n ∷ finished) = ite (ℕ_discrete n number) true (is_finished number finished)

abbrev pub is_alive : EventualConsistencySimulator → Timer → Bool
is_alive s timer = not (is_finished timer.number s.finished)

-- The `finally` of `_deliver_update`: the timers of the seat whose threads have ended are removed.
unfoldable pub clean_up : ℕ → EventualConsistencySimulator → EventualConsistencySimulator
clean_up seat_id s = elim (lookup seat_id s.pending) [
  | none ↦ s
  | some timers ↦ record s { pending = insert seat_id (filter (is_alive s) timers) s.pending }
]

-- `_deliver_update` runs on the thread of its own timer. It returns what the callback gets; what
-- the callback raises is logged and dropped.
unfoldable pub deliver_update :
    Timer
    → EventualConsistencySimulator
    → List (String × SeatState × ℕ) × EventualConsistencySimulator
deliver_update timer s = (
  if s.on_sync_callback then (timer.peer_id, timer.seat, timer.delay_ms) ∷ [] else [],
  clean_up timer.seat.seat_id s,
)

-- The thread of a timer ends, once the delivery has returned or the timer has been cancelled.
unfoldable pub finish : Timer → EventualConsistencySimulator → EventualConsistencySimulator
finish timer s = record s { finished = timer.number ∷ s.finished }

unfoldable pub finish_all : List Timer → EventualConsistencySimulator → EventualConsistencySimulator
finish_all [] s = s
finish_all (timer ∷ timers) s = finish_all timers (finish timer s)

unfoldable pub cancel_pending_replication :
    (seat_id : ℕ) → EventualConsistencySimulator → EventualConsistencySimulator
cancel_pending_replication seat_id s = elim (lookup seat_id s.pending) [
  | none ↦ s
  | some timers ↦ finish_all timers (record s { pending = erase seat_id s.pending })
]

abbrev pub count_all : Dict ℕ (List Timer) → ℕ
count_all [] = 0
count_all ((seat_id, timers) ∷ pending) = length timers + count_all pending

unfoldable pub get_pending_count : EventualConsistencySimulator → ℕ
get_pending_count s = count_all s.pending

unfoldable pub get_consistency_lag_ms : EventualConsistencySimulator → List (String × ℕ)
get_consistency_lag_ms s = map (λ peer. (peer, s.max_delay_ms)) s.peers
