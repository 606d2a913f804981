-- ===== src/Circuit/StateMachine/Traces.antt =====
-- Runs of the state machine: how it trips, rejects, probes and recovers.
use distributed_tickit_syste.Common.{
  ℕ, zero, suc, ◌+◌, ◌<◌, ◌≤◌, ◌≡◌, ◌⊎◌, inl, inr, true, List, [], ◌∷◌, arith, leb, ltb,
  if◌then◌else◌, length, Bool-cases,
}
use distributed_tickit_syste.Circuit.StateMachine.{
  closed, opened, half_open, CircuitBreaker, allow_request, record_success, record_failure,
  circuit_open, raised, call,
}

-- Failures one after another, each with its two readings of the clock.
pub fail_at : List (ℕ × ℕ) → CircuitBreaker → CircuitBreaker
fail_at [] cb = cb
fail_at ((first, second) ∷ times) cb = fail_at times (record_failure first second cb)

-- `n` successes one after another.
pub succeed : ℕ → CircuitBreaker → CircuitBreaker
succeed zero cb = cb
succeed (suc n) cb = succeed n (record_success cb)

fail_at-opened :
    (times : List (ℕ × ℕ)) (cb : CircuitBreaker)
    → cb.state ≡ opened
    → (fail_at times cb).state ≡ opened
unfolding fail_at record_failure
fail_at-opened [] cb h = h
fail_at-opened ((first, second) ∷ times) cb h =
    fail_at-opened times (record_failure first second cb) (ground arith)

-- From CLOSED with fewer failures counted than the threshold, consecutive failures open the
-- circuit with the one that reaches the threshold, and it stays open under further failures.
pub fail_at-state :
    (times : List (ℕ × ℕ)) (cb : CircuitBreaker)
    → cb.state ≡ closed
    → cb.failure_count < cb.failure_threshold
    → (fail_at times cb).state
      ≡ (if ltb (cb.failure_count + length times) cb.failure_threshold then closed else opened)
unfolding fail_at record_failure
fail_at-state [] cb h below = ground arith
fail_at-state ((first, second) ∷ times) cb h below =
    elim (Bool-cases (leb cb.failure_threshold (cb.failure_count + 1))) [
      | inl trips ↦ ground (arith, fail_at-opened times (record_failure first second cb))
      | inr stays ↦ ground (arith, fail_at-state times (record_failure first second cb))
    ]

-- Too few successes in HALF_OPEN are only counted.
succeed-half_open :
    (n : ℕ) (cb : CircuitBreaker)
    → cb.state ≡ half_open
    → cb.half_open_success_count + n < cb.half_open_successes
    → (succeed n cb).state ≡ half_open
unfolding succeed record_success
succeed-half_open zero cb h below = h
succeed-half_open (suc n) cb h below = ground (arith, succeed-half_open n (record_success cb))

-- The success that reaches the number wanted closes the circuit.
succeed-closes :
    (n : ℕ) (cb : CircuitBreaker)
    → cb.state ≡ half_open
    → cb.half_open_success_count + n ≡ cb.half_open_successes
    → 0 < n
    → ((succeed n cb).state ≡ closed)
      × ((succeed n cb).failure_count ≡ 0)
      × ((succeed n cb).half_open_success_count ≡ 0)
unfolding succeed record_success
succeed-closes zero cb h wanted some_left = absurd (omega arith)
succeed-closes (suc zero) cb h wanted some_left = ground arith
succeed-closes (suc (suc n)) cb h wanted some_left =
    ground (arith, succeed-closes (suc n) (record_success cb))

-- After the timeout, `allow_request` starts a probe.
allow_request-probes :
    (now : ℕ) (cb : CircuitBreaker)
    → cb.state ≡ opened
    → cb.last_failure_time + cb.recovery_timeout ≤ now
    → ((allow_request now cb).0 ≡ true)
      × ((allow_request now cb).1.state ≡ half_open)
      × ((allow_request now cb).1.half_open_success_count ≡ 0)
      × ((allow_request now cb).1.half_open_successes ≡ cb.half_open_successes)
unfolding allow_request
allow_request-probes now cb h passed = ground arith

-- An open circuit whose timeout has passed lets a request through as a probe, and
-- `half_open_successes` successes in a row then close it with all counters at zero; with fewer
-- it is still in HALF_OPEN.
pub recovery :
    (now n : ℕ) (cb : CircuitBreaker)
    → cb.state ≡ opened
    → cb.last_failure_time + cb.recovery_timeout ≤ now
    → n < cb.half_open_successes
    → let probing = (allow_request now cb).1 in
      let recovered = succeed cb.half_open_successes probing in
      ((allow_request now cb).0 ≡ true)
      × ((succeed n probing).state ≡ half_open)
      × (recovered.state ≡ closed)
      × (recovered.failure_count ≡ 0)
      × (recovered.half_open_success_count ≡ 0)
recovery now n cb h passed below =
    let probing = (allow_request now cb).1 in
    let (allowed, probes, none_yet, same_wanted) = allow_request-probes now cb h passed in
    let (state, failures, successes) =
      succeed-closes cb.half_open_successes probing probes (omega arith) (omega arith) in
    (allowed, succeed-half_open n probing probes (omega arith), state, failures, successes)

-- While the circuit is open and its timeout has not passed, `call` raises `CircuitOpenError`
-- whatever the function would do, and the breaker, its callback included, is left as it was.
pub call-rejects :
    {A E : Type 0} (now first second : ℕ) (fn : CircuitBreaker → (A ⊎ E) × CircuitBreaker)
    (cb : CircuitBreaker)
    → cb.state ≡ opened
    → now < cb.last_failure_time + cb.recovery_timeout
    → call now first second fn cb ≡ (circuit_open, cb)
unfolding call allow_request
call-rejects now first second fn cb h early = ground arith

-- A probe in HALF_OPEN that fails opens the circuit again for a whole timeout from the second
-- reading of the clock, and its exception is passed on.
pub call-probe_fails :
    {A E : Type 0} (now first second : ℕ) (exc : E) (fn : CircuitBreaker → (A ⊎ E) × CircuitBreaker)
    (cb : CircuitBreaker) (later : ℕ)
    → cb.state ≡ half_open
    → fn cb ≡ (inr exc, cb)
    → let (outcome, cb') = call now first second fn cb in
      (outcome ≡ raised exc)
      × (cb'.state ≡ opened)
      × ((allow_request later cb').0 ≡ leb (second + cb.recovery_timeout) later)
unfolding call allow_request record_failure
call-probe_fails now first second exc fn cb later h e = ground arith
