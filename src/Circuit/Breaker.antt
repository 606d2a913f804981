-- ===== src/Circuit/Breaker.antt =====
-- circuit_breaker/breaker.py: the state machine, opened by the failure rate as well.
use distributed_tickit_syste.Common.{
  ℕ, ◌+◌, ◌*◌, ◌<◌, ◌≤◌, ◌≡◌, ◌⊎◌, inl, inr, Bool, Option, List, [], ◌∷◌, arith, ltb, leb,
  if◌then◌else◌, Bool-cases, foldl,
}
use distributed_tickit_syste.Circuit.FailureTracker
use distributed_tickit_syste.Circuit.FailureTracker.{FailureTracker, Percentage}
use distributed_tickit_syste.Circuit.StateMachine
use distributed_tickit_syste.Circuit.StateMachine.{
  CircuitState, closed, opened, half_open, CircuitBreaker, Outcome, returned, raised, circuit_open,
}
use distributed_tickit_syste.Circuit.StateMachine.Invariant.{
  IsValid, open-IsValid, allow_request-IsValid, read_state-IsValid, record_success-IsValid,
  record_failure-IsValid as failure-IsValid,
}

pub record Breaker : Type 0 where
  -- in whole percents
  pub failure_rate_threshold : ℕ
  pub tracker : FailureTracker
  pub cb : CircuitBreaker

unfoldable pub init :
    (failure_threshold failure_rate_threshold window recovery_timeout half_open_successes : ℕ)
    → Option (List (CircuitState × CircuitState))
    → Breaker
unfolding FailureTracker.init StateMachine.init
init threshold rate window timeout successes callback = record {
  failure_rate_threshold = rate;
  tracker = FailureTracker.init window;
  cb = StateMachine.init threshold timeout successes callback;
}

unfoldable pub get_state : ℕ → Breaker → CircuitState × Breaker
get_state now b = let (s, cb') = StateMachine.read_state now b.cb in (s, record b { cb = cb' })

unfoldable pub allow_request : ℕ → Breaker → Bool × Breaker
allow_request now b =
    let (ok, cb') = StateMachine.allow_request now b.cb in (ok, record b { cb = cb' })

-- `now` is the tracker's reading of the clock.
unfoldable pub record_success : ℕ → Breaker → Breaker
record_success now b = record b {
  tracker = FailureTracker.record_success now b.tracker;
  cb = StateMachine.record_success b.cb;
}

-- `fp > threshold`
abbrev pub exceeds : Percentage → ℕ → Bool
exceeds p threshold = ltb (threshold * p.denominator) p.numerator

-- The readings of the clock in `record_failure`: by the tracker when it records, twice by the
-- state machine, by the tracker when it counts, and by the forced transition.
pub record Readings : Type 0 where
  pub recorded : ℕ
  pub first : ℕ
  pub second : ℕ
  pub counted : ℕ
  pub forced : ℕ

unfoldable pub record_failure : Readings → Breaker → Breaker
record_failure r b =
    let tracker' = FailureTracker.record_failure r.recorded b.tracker in
    let cb' = StateMachine.record_failure r.first r.second b.cb in
    let (fp, tracker'') = FailureTracker.failure_percentage r.counted tracker' in
    record b {
      tracker = tracker'';
      cb =
          if exceeds fp b.failure_rate_threshold
          then StateMachine.transition r.forced opened cb'
          else cb';
    }

unfoldable pub failure_percentage : ℕ → Breaker → Percentage × Breaker
failure_percentage now b =
    let (fp, tracker') = FailureTracker.failure_percentage now b.tracker in
    (fp, record b { tracker = tracker' })

unfoldable pub get_counts : ℕ → Breaker → (ℕ × ℕ) × Breaker
get_counts now b =
    let (counts, tracker') = FailureTracker.get_counts now b.tracker in
    (counts, record b { tracker = tracker' })

module _ {A E : Type 0} where
  -- The `except` and `else` of `call`.
  abbrev pub settle : Readings → A ⊎ E → Breaker → Outcome A E × Breaker
  settle r (inl value) b = (returned value, record_success r.recorded b)
  settle r (inr exc) b = (raised exc, record_failure r b)

  -- The function may use the breaker itself. `now` is read first, the others after it has run.
  unfoldable pub call :
      ℕ → Readings → (Breaker → (A ⊎ E) × Breaker) → Breaker → Outcome A E × Breaker
  call now r fn b =
      let (allowed, b') = allow_request now b in
      let (result, b'') = fn b' in if allowed then settle r result b'' else (circuit_open, b')

-- The failure rate of the window as `record_failure` sees it.
abbrev pub rate_after : Readings → Breaker → Percentage
rate_after r b =
    (FailureTracker.failure_percentage r.counted
      (FailureTracker.record_failure r.recorded b.tracker)).0

-- A failure leaves the circuit open exactly if the rate of the window, this failure included, is
-- above the threshold, or the circuit was not closed, or the failures in a row have reached the
-- number that opens it; otherwise the circuit stays closed.
pub record_failure-state :
    (r : Readings) (b : Breaker)
    → (record_failure r b).cb.state ≡ (
        if exceeds (rate_after r b) b.failure_rate_threshold then opened else elim b.cb.state [
          | closed ↦ if leb b.cb.failure_threshold (b.cb.failure_count + 1) then opened else closed
          | _ ↦ opened
        ])
unfolding record_failure StateMachine.record_failure
record_failure-state r b = ground arith

-- With no other outcome in the window, one failure is a rate of 100 percent, so it opens the
-- circuit whatever number of failures in a row is configured, if the rate threshold is below 100
-- percent and the window is not over before the failures are counted.
pub first_failure_opens :
    (r : Readings) (b : Breaker)
    → b.tracker.events ≡ []
    → b.failure_rate_threshold < 100
    → r.counted ≤ r.recorded + b.tracker.window
    → (record_failure r b).cb.state ≡ opened
unfolding record_failure StateMachine.transition
first_failure_opens r b none_yet low in_window =
    ground (arith, FailureTracker.failure_percentage-first r.recorded r.counted b.tracker)

-- The calls of a breaker's methods, with the readings of the clock.
pub data Call : Type 0 where
  state allow success rate counts : (now : ℕ) → Call
  failure : Readings → Call

pub after : Call → Breaker → Breaker
after (state now) b = (get_state now b).1
after (allow now) b = (allow_request now b).1
after (success now) b = record_success now b
after (rate now) b = (failure_percentage now b).1
after (counts now) b = (get_counts now b).1
after (failure r) b = record_failure r b

pub run : List Call → Breaker → Breaker
unfolding after
run calls b = foldl (λ c call. after call c) b calls

record_failure-IsValid :
    (r : Readings) (b : Breaker) → IsValid b.cb → IsValid (record_failure r b).cb
unfolding record_failure
record_failure-IsValid r b v =
    let cb' = StateMachine.record_failure r.first r.second b.cb in
    let v' : IsValid cb' = failure-IsValid b.cb v r.first r.second in
    elim (Bool-cases (exceeds (rate_after r b) b.failure_rate_threshold)) [
      | inl above ↦ rw above (open-IsValid cb' v' r.forced)
      | inr below ↦ rw below v'
    ]

after-IsValid : (call : Call) (b : Breaker) → IsValid b.cb → IsValid (after call b).cb
unfolding after get_state allow_request record_success failure_percentage get_counts
after-IsValid (state now) b v = read_state-IsValid b.cb v now
after-IsValid (allow now) b v = allow_request-IsValid b.cb v now
after-IsValid (success now) b v = record_success-IsValid b.cb v
after-IsValid (rate now) b v = v
after-IsValid (counts now) b v = v
after-IsValid (failure r) b v = record_failure-IsValid r b v

-- Opening by the failure rate keeps what holds of the state machine: from a valid breaker, after
-- any calls at any times, its counters fit its state, and the changes that the callback was told
-- of lead from CLOSED to the present state along the allowed edges.
pub run-IsValid : (calls : List Call) (b : Breaker) → IsValid b.cb → IsValid (run calls b).cb
unfolding run
run-IsValid [] b v = v
run-IsValid (call ∷ calls) b v = run-IsValid calls (after call b) (after-IsValid call b v)
