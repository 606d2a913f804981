-- ===== src/Circuit/StateMachine.antt =====
-- circuit_breaker/state_machine.py. Times are whole milliseconds; each reading of `time.time()` is
-- an argument, in the order of the readings. The lock makes every method one step.
pub mod Invariant
pub mod Traces
use distributed_tickit_syste.Common.{
  ℕ, ◌+◌, Bool, true, false, Option, none, some, List, [], ◌∷◌, ◌++◌, leb, if◌then◌else◌, ◌⊎◌, inl,
  inr,
}

pub data CircuitState : Type 0 where
  closed opened half_open : CircuitState

-- `on_state_change` is `none` without a callback, and otherwise the calls that the callback got.
-- What the callback raises is swallowed, so the calls are all that the breaker does with it.
pub record CircuitBreaker : Type 0 where
  pub failure_threshold : ℕ
  pub recovery_timeout : ℕ
  pub half_open_successes : ℕ
  pub on_state_change : Option (List (CircuitState × CircuitState))
  pub state : CircuitState
  pub failure_count : ℕ
  pub last_failure_time : ℕ
  pub half_open_success_count : ℕ

unfoldable pub init :
    (failure_threshold recovery_timeout half_open_successes : ℕ)
    → Option (List (CircuitState × CircuitState))
    → CircuitBreaker
init threshold timeout successes callback = record {
  failure_threshold = threshold;
  recovery_timeout = timeout;
  half_open_successes = successes;
  on_state_change = callback;
  state = closed;
  failure_count = 0;
  last_failure_time = 0;
  half_open_success_count = 0;
}

abbrev notify :
    CircuitState
    → CircuitState
    → Option (List (CircuitState × CircuitState))
    → Option (List (CircuitState × CircuitState))
notify old new none = none
notify old new (some calls) = some (calls ++ (old, new) ∷ [])

-- The counters that `_transition` resets, by the new state.
abbrev enter : ℕ → CircuitState → CircuitBreaker → CircuitBreaker
enter now closed cb = record cb { state = closed; failure_count = 0; half_open_success_count = 0 }
enter now opened cb = record cb {
  state = opened;
  half_open_success_count = 0;
  last_failure_time = now;
}
enter now half_open cb = record cb { state = half_open; half_open_success_count = 0 }

-- The clock is read only on the way to OPEN.
unfoldable pub transition : ℕ → CircuitState → CircuitBreaker → CircuitBreaker
transition now new cb = record (enter now new cb) {
  on_state_change = notify cb.state new cb.on_state_change;
}

-- `time.time() - last_failure_time >= recovery_timeout`, without the subtraction.
abbrev pub timed_out : ℕ → CircuitBreaker → Bool
timed_out now cb = leb (cb.last_failure_time + cb.recovery_timeout) now

-- The property `state`.
unfoldable pub read_state : ℕ → CircuitBreaker → CircuitState × CircuitBreaker
unfolding transition
read_state now cb = elim cb.state [
  | opened ↦
      let cb' = if timed_out now cb then transition now half_open cb else cb in (cb'.state, cb')
  | other ↦ (other, cb)
]

unfoldable pub allow_request : ℕ → CircuitBreaker → Bool × CircuitBreaker
unfolding transition
allow_request now cb = elim cb.state [
  | opened ↦ if timed_out now cb then (true, transition now half_open cb) else (false, cb)
  | _ ↦ (true, cb)
]

unfoldable pub record_success : CircuitBreaker → CircuitBreaker
unfolding transition
record_success cb = elim cb.state [
  | half_open ↦
      let cb' : CircuitBreaker = record cb {
        half_open_success_count = cb.half_open_success_count + 1;
      } in
      if leb cb.half_open_successes cb'.half_open_success_count
      then transition 0 closed cb'
      else cb'
  | _ ↦ record cb { failure_count = 0 }
]

unfoldable pub record_failure : (first second : ℕ) → CircuitBreaker → CircuitBreaker
unfolding transition
record_failure first second cb = elim cb.state [
  | half_open ↦ record (transition first opened cb) { last_failure_time = second }
  | _ ↦
      let cb' : CircuitBreaker = record cb {
        failure_count = cb.failure_count + 1;
        last_failure_time = first;
      } in
      if leb cb.failure_threshold cb'.failure_count then transition second opened cb' else cb'
]

-- What a guarded function does, and what `call` returns or raises: the function's result, its
-- exception, or `CircuitOpenError`.
pub data Outcome (A E : Type 0) : Type 0 where
  returned : A → Outcome A E
  raised : E → Outcome A E
  circuit_open : Outcome A E

-- The `except` and `else` of `call`.
abbrev settle :
    {A E : Type 0} (first second : ℕ) → A ⊎ E → CircuitBreaker → Outcome A E × CircuitBreaker
settle first second (inl value) cb = (returned value, record_success cb)
settle first second (inr exc) cb = (raised exc, record_failure first second cb)

-- The function may use the breaker itself. `first` and `second` are read after it has run.
unfoldable pub call :
    {A E : Type 0} (now first second : ℕ)
    → (CircuitBreaker → (A ⊎ E) × CircuitBreaker)
    → CircuitBreaker
    → Outcome A E × CircuitBreaker
call now first second fn cb =
    let (allowed, cb') = allow_request now cb in
    let (result, cb'') = fn cb' in
    if allowed then settle first second result cb'' else (circuit_open, cb')
