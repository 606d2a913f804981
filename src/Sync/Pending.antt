-- ===== src/Sync/Pending.antt =====
-- Which replications count as pending.
use distributed_tickit_syste.Common.{
  ℕ, suc, ◌+◌, ◌≡◌, ◌≤◌, refl, ◌∙◌, ap, sym, String, Bool, true, none, some, List, [], ◌∷◌, filter,
  not, All, ◌++◌, false, length, nat_key, arith, length-append, Option-cases, inl, inr, Bool-cases,
}
use distributed_tickit_syste.Common.Dict.{Dict, lookup, insert, lookup-insert}
use distributed_tickit_syste.Sync.SeatState.{SeatState}
use distributed_tickit_syste.Sync.Simulator.{
  Timer, EventualConsistencySimulator, timers_of, schedule, schedule_all, broadcast_with_delay,
  is_alive, is_finished, finish, clean_up, deliver_update, count_all, get_pending_count,
}
use mathlib.Core.List.{Memᴰ}

count_all-insert :
    (k : ℕ) (timers : List Timer) (d : Dict ℕ (List Timer)) (old : List Timer)
    → (elim (lookup k d) as (λ _. List Timer) [ none ↦ [] | some ts ↦ ts ]) ≡ old
    → count_all (insert k timers d) + length old ≡ count_all d + length timers
unfolding lookup insert
count_all-insert k timers [] old e = ground (arith, e)
count_all-insert k timers ((j, ts) ∷ d) old e = ground (arith, count_all-insert k timers d old)

schedule-count :
    (p : String) (delay : ℕ) (seat : SeatState) (s : EventualConsistencySimulator)
    → get_pending_count (schedule p delay seat s) ≡ suc (get_pending_count s)
unfolding schedule get_pending_count
schedule-count p delay seat s = omega (
  arith,
  count_all-insert seat.seat_id _ s.pending (timers_of seat.seat_id s) refl,
  length-append (timers_of seat.seat_id s)
      (record { number = s.next_timer; peer_id = p; seat = seat; delay_ms = delay } ∷ []),
)

schedule_all-count :
    (peers : List String) (delays : String → ℕ) (seat : SeatState)
    (s : EventualConsistencySimulator)
    → get_pending_count (schedule_all peers delays seat s) ≡ length peers + get_pending_count s
unfolding schedule_all
schedule_all-count [] delays seat s = omega arith
schedule_all-count (p ∷ peers) delays seat s = omega (
  arith,
  schedule_all-count peers delays seat (schedule p (delays p) seat s),
  schedule-count p (delays p) seat s,
)

-- A broadcast adds one pending replication for every peer.
pub broadcast_with_delay-count :
    (delays : String → ℕ) (seat : SeatState) (s : EventualConsistencySimulator)
    → get_pending_count (broadcast_with_delay delays seat s) ≡ length s.peers + get_pending_count s
unfolding broadcast_with_delay
broadcast_with_delay-count delays seat s = schedule_all-count s.peers delays seat s

filter-mem :
    (p : Timer → Bool) (t : Timer) (timers : List Timer)
    → p t ≡ true
    → Memᴰ t timers
    → Memᴰ t (filter p timers)
filter-mem p t [] e h = elim h [ ]
filter-mem p t (x ∷ timers) e (Memᴰ.head same) =
    let e' : p x ≡ true = rw (← same) e in rw e' (Memᴰ.head same)
filter-mem p t (x ∷ timers) e (Memᴰ.tail h) = elim (Bool-cases (p x)) [
  | inl b ↦ rw b (Memᴰ.tail (filter-mem p t timers e h))
  | inr b ↦ rw b (filter-mem p t timers e h)
]

timers_of-insert :
    (k : ℕ) (timers : List Timer) (s : EventualConsistencySimulator)
    → timers_of k (record s { pending = insert k timers s.pending }) ≡ timers
timers_of-insert k timers s = ground (arith, lookup-insert k k timers s.pending)

timers_of-clean_up :
    (k : ℕ) (s : EventualConsistencySimulator)
    → timers_of k (clean_up k s) ≡ filter (is_alive s) (timers_of k s)
unfolding clean_up
timers_of-clean_up k s = elim (Option-cases (lookup k s.pending)) [
  | inl free ↦
      let nothing : timers_of k s ≡ [] =
        ap (λ o. elim o as (λ _. List Timer) [ none ↦ [] | some ts ↦ ts ]) free in
      rw (free, clean_up) (nothing ∙ sym (ap (filter (is_alive s)) nothing))
  | inr (timers, e) ↦
      let these : timers_of k s ≡ timers =
        ap (λ o. elim o as (λ _. List Timer) [ none ↦ [] | some ts ↦ ts ]) e in
      rw (e, clean_up)
        (timers_of-insert k (filter (is_alive s) timers) s ∙ sym (ap (filter (is_alive s)) these))
]

-- The deliveries of some timers, one after the other: the thread of a timer ends behind its delivery.
unfoldable pub deliver_in_turn :
    List Timer → EventualConsistencySimulator → EventualConsistencySimulator
deliver_in_turn [] s = s
deliver_in_turn (t ∷ ts) s = deliver_in_turn ts (finish t (deliver_update t s).1)

-- The threads that have ended when these timers have been delivered too.
abbrev pub ended : List Timer → List ℕ → List ℕ
ended [] finished = finished
ended (t ∷ ts) finished = ended ts (t.number ∷ finished)

abbrev pub still_runs : List ℕ → Timer → Bool
still_runs finished t = not (is_finished t.number finished)

-- A thread that has ended stays so.
ended_stays :
    (n : ℕ) (ts : List Timer) (finished : List ℕ)
    → is_finished n finished ≡ true
    → is_finished n (ended ts finished) ≡ true
unfolding is_finished
ended_stays n [] finished e = e
ended_stays n (t ∷ ts) finished e = ended_stays n ts (t.number ∷ finished) (ground arith)

filter-narrower :
    (p q : Timer → Bool) (timers : List Timer)
    → ((t : Timer) → q t ≡ false → p t ≡ false)
    → filter p (filter q timers) ≡ filter p timers
filter-narrower p q [] h = refl
filter-narrower p q (t ∷ timers) h = ground (arith, filter-narrower p q timers h, h t)

timers_of-finish :
    (k : ℕ) (t : Timer) (s : EventualConsistencySimulator)
    → timers_of k (finish t s) ≡ timers_of k s
unfolding finish
timers_of-finish k t s = refl

finished-deliver_update :
    (t : Timer) (s : EventualConsistencySimulator) → (deliver_update t s).1.finished ≡ s.finished
unfolding deliver_update clean_up
finished-deliver_update t s = ground arith

one_delivered :
    (k : ℕ) (t : Timer) (s : EventualConsistencySimulator)
    → t.seat.seat_id ≡ k
    → timers_of k (finish t (deliver_update t s).1) ≡ filter (is_alive s) (timers_of k s)
unfolding deliver_update
one_delivered k t s own =
    timers_of-finish k t (deliver_update t s).1
    ∙ ap (λ j. timers_of k (clean_up j s)) own
    ∙ timers_of-clean_up k s

finished-finish :
    (t : Timer) (s : EventualConsistencySimulator)
    → (finish t (deliver_update t s).1).finished ≡ t.number ∷ s.finished
unfolding finish
finished-finish t s = ap (◌∷◌ t.number) (finished-deliver_update t s)

still_ended :
    (t : Timer) (ts : List Timer) (s : EventualConsistencySimulator) (x : Timer)
    → is_alive s x ≡ false
    → still_runs (ended ts (t.number ∷ s.finished)) x ≡ false
still_ended t ts s x e =
    let over : is_finished x.number s.finished ≡ true = ground arith in
    ap not (ended_stays x.number (t ∷ ts) s.finished over)

timers_of-deliver_in_turn :
    (k : ℕ) (ts : List Timer) (last : Timer) (s : EventualConsistencySimulator)
    → All (λ (t : Timer). t.seat.seat_id ≡ k) (ts ++ last ∷ [])
    → timers_of k (deliver_in_turn (ts ++ last ∷ []) s)
      ≡ filter (still_runs (ended ts s.finished)) (timers_of k s)
unfolding deliver_in_turn
timers_of-deliver_in_turn k [] last s own = one_delivered k last s own.0
timers_of-deliver_in_turn k (t ∷ ts) last s own =
    let s' = finish t (deliver_update t s).1 in
    timers_of-deliver_in_turn k ts last s' own.1
    ∙ ap (λ (f : List ℕ). filter (still_runs (ended ts f)) (timers_of k s')) (finished-finish t s)
    ∙ ap (filter (still_runs (ended ts (t.number ∷ s.finished)))) (one_delivered k t s own.0)
    ∙ filter-narrower (still_runs (ended ts (t.number ∷ s.finished))) (is_alive s) (timers_of k s)
        (still_ended t ts s)

length-below_count :
    (k : ℕ) (d : Dict ℕ (List Timer)) (timers : List Timer)
    → (elim (lookup k d) as (λ _. List Timer) [ none ↦ [] | some ts ↦ ts ]) ≡ timers
    → length timers ≤ count_all d
unfolding lookup
length-below_count k [] timers e = ground (arith, e)
length-below_count k ((j, ts) ∷ d) timers e = ground (arith, e, length-below_count k d timers)

some-of-mem : (t : Timer) (timers : List Timer) → Memᴰ t timers → 1 ≤ length timers
some-of-mem t [] h = elim h [ ]
some-of-mem t (x ∷ timers) h = omega arith

-- The replications of a seat are delivered one after the other, a thread ending behind its delivery.
-- Of the timers that were pending for the seat, exactly those are left whose threads had not ended
-- before the last delivery. So the timer of the last delivery, which was pending and whose thread
-- had not ended before, still counts as pending when everything is delivered: the count of pending
-- replications is not 0.
pub deliver_in_turn_lem :
    (k : ℕ) (ts : List Timer) (last : Timer) (s : EventualConsistencySimulator)
    → All (λ (t : Timer). t.seat.seat_id ≡ k) (ts ++ last ∷ [])
    → Memᴰ last (timers_of k s)
    → still_runs (ended ts s.finished) last ≡ true
    → (timers_of k (deliver_in_turn (ts ++ last ∷ []) s)
        ≡ filter (still_runs (ended ts s.finished)) (timers_of k s))
      × Memᴰ last (timers_of k (deliver_in_turn (ts ++ last ∷ []) s))
      × (1 ≤ get_pending_count (deliver_in_turn (ts ++ last ∷ []) s))
unfolding get_pending_count
deliver_in_turn_lem k ts last s own there running =
    let after = deliver_in_turn (ts ++ last ∷ []) s in
    let left = timers_of-deliver_in_turn k ts last s own in
    let stays : Memᴰ last (timers_of k after) =
      rw left (filter-mem (still_runs (ended ts s.finished)) last (timers_of k s) running there) in
    let counted = length-below_count k after.pending (timers_of k after) refl in
    let one = some-of-mem last (timers_of k after) stays in
    (left, stays, omega (arith, counted, one))
