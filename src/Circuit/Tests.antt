-- ===== src/Circuit/Tests.antt =====
-- Runs of the circuit breaker at concrete inputs.
use distributed_tickit_syste.Common.{
  ℕ, ◌≡◌, refl, ◌⊎◌, inl, inr, true, false, some, List, [], ◌∷◌, arith,
}
use distributed_tickit_syste.Circuit.FailureTracker
use distributed_tickit_syste.Circuit.FailureTracker.{
  FailureTracker, get_counts-window, failure_percentage_bound, get_counts, failure_percentage,
}
use distributed_tickit_syste.Circuit.StateMachine.{
  closed, opened, half_open, CircuitBreaker, allow_request,
}
use distributed_tickit_syste.Circuit.StateMachine.Invariant.{IsValid}
use distributed_tickit_syste.Circuit.StateMachine.Traces.{succeed, recovery}
use distributed_tickit_syste.Circuit.Breaker
use distributed_tickit_syste.Circuit.Breaker.{
  Breaker, Readings, record_failure-state, first_failure_opens, run-IsValid, Call, record_failure,
  run,
}

abbrev fresh : CircuitBreaker
fresh = record {
  failure_threshold = 3;
  recovery_timeout = 8000;
  half_open_successes = 1;
  on_state_change = some [];
  state = closed;
  failure_count = 0;
  last_failure_time = 0;
  half_open_success_count = 0;
}

abbrev tripped : CircuitBreaker
tripped = record fresh { state = opened; failure_count = 3; last_failure_time = 1000 }

abbrev probing : CircuitBreaker
probing = record tripped { state = half_open }

abbrev breaker : Breaker
breaker = record {
  failure_rate_threshold = 60;
  tracker = record { window = 60000; events = [] };
  cb = fresh;
}

abbrev readings : Readings
readings = record { recorded = 1000; first = 1000; second = 1001; counted = 1002; forced = 1003 }

-- The constructor with the numbers of the dashboard builds `breaker`.
init-breaker : Breaker.init 3 60 60000 8000 1 (some []) ≡ breaker
unfolding Breaker.init
init-breaker = refl

recovery_example :
    let probing = (allow_request 9000 tripped).1 in
    ((allow_request 9000 tripped).0 ≡ true)
    × ((succeed 0 probing).state ≡ half_open)
    × ((succeed 1 probing).state ≡ closed)
    × ((succeed 1 probing).failure_count ≡ 0)
    × ((succeed 1 probing).half_open_success_count ≡ 0)
recovery_example = recovery 9000 0 tripped refl (omega arith) (omega arith)

abbrev answers : CircuitBreaker → (ℕ ⊎ ℕ) × CircuitBreaker
answers cb = (inl 7, cb)

abbrev fails : CircuitBreaker → (ℕ ⊎ ℕ) × CircuitBreaker
fails cb = (inr 7, cb)

abbrev outcomes : FailureTracker
outcomes = record { window = 10; events = (1, true) ∷ (5, false) ∷ (9, true) ∷ [] }

record_failure-state_example : (record_failure readings breaker).cb.state ≡ opened
unfolding FailureTracker.failure_percentage FailureTracker.record_failure
record_failure-state_example = record_failure-state readings breaker

fresh-IsValid : IsValid fresh
fresh-IsValid = record {
  threshold = omega arith;
  successes = omega arith;
  counts = (omega arith, refl);
  told = refl;
}

abbrev calls : List Call
calls = Call.failure readings ∷ Call.allow 9003 ∷ Call.success 9004 ∷ []

run-IsValid_example : IsValid (run calls breaker).cb
run-IsValid_example = run-IsValid calls breaker fresh-IsValid
