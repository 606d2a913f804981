-- ===== src/Retry/Manager/Calls.antt =====
-- What `RetryManager.call` does for every function: its result, its calls and its delays.
use distributed_tickit_syste.Common.{
  ℕ, zero, suc, ◌+◌, ◌*◌, ◌-◌, ◌≤◌, ◌<◌, ◌≡◌, refl, ◌∙◌, true, false, Option, none, some, List, [],
  ◌∷◌, min, arith, map, Bool-cases, inl, inr,
}
use distributed_tickit_syste.Retry.Backoff.{power, delays_from, exponential_backoff_delays}
use distributed_tickit_syste.Retry.Manager.{
  Result, returned, raised, called, Outcome, value, passed_on, retry_error, exhausted, Event,
  RetryManager, base_for, compute_delay, handle, notify_giveup, attempt_once, call_from, call,
  decorated,
}
use distributed_tickit_syste.Retry.Manager.Rounds.{
  number_called, delays, FailsAt, computed_delays, give_up_lem, pass_on_lem, value_lem,
  after_failures, calls_and_sleeps, in_turn, order_after_failures,
}

min_comm : (a b : ℕ) → min a b ≡ min b a
min_comm a b = ground arith

base_for_lem :
    {E : Type 0} (r : RetryManager E) (attempt base : ℕ)
    → base ≡ r.base_delay * power r.backoff_factor attempt
    → base_for r (attempt + 1) ≡ min base r.max_delay
base_for_lem r attempt base at =
    let back : attempt + 1 - 1 ≡ attempt = omega arith in
    rw (back, ← at) (min_comm r.max_delay base)

-- A draw of `random.uniform` lies between its limits.
abbrev pub AreBetween : (ℕ → ℕ → ℕ → ℕ) → Type 0
AreBetween uniform =
    (i low high : ℕ) → low ≤ high → (low ≤ uniform i low high) × (uniform i low high ≤ high)

-- Whatever is drawn between the limits, the delay before a retry is at most 20 percent off the capped
-- exponential delay, which is at most `max_delay`: in tenths, it lies between 8 and 12 times that
-- delay, and is exactly 10 times that delay if `jitter` is off.
pub compute_delay-bounds :
    {E : Type 0} (uniform : ℕ → ℕ → ℕ → ℕ) (r : RetryManager E) (attempt : ℕ)
    → AreBetween uniform
    → (8 * base_for r attempt ≤ compute_delay uniform r attempt)
      × (compute_delay uniform r attempt ≤ 12 * base_for r attempt)
      × (base_for r attempt ≤ r.max_delay)
      × (r.jitter ≡ false → compute_delay uniform r attempt ≡ 10 * base_for r attempt)
unfolding compute_delay
compute_delay-bounds uniform r attempt draws =
    let draw = draws attempt (8 * base_for r attempt) (12 * base_for r attempt) (omega arith) in
    let below_cap : base_for r attempt ≤ r.max_delay = ground arith in
    elim (Bool-cases r.jitter) [
      | inl e ↦ rw e (draw.0, draw.1, below_cap, λ off. cc)
      | inr e ↦ rw e (omega arith, omega arith, below_cap, λ off. refl)
    ]

-- Delays in tenths, each at most 20 percent off a delay.
abbrev pub AreNear : (tenths : List ℕ) → List ℕ → Type 0
AreNear [] [] = Unit
AreNear (d ∷ ds) (b ∷ bs) = ((8 * b ≤ d) × (d ≤ 12 * b)) × AreNear ds bs
AreNear [] (b ∷ bs) = ⊥
AreNear (d ∷ ds) [] = ⊥

module _ {V E : Type 0} (fn : ℕ → Result V E) (uniform : ℕ → ℕ → ℕ → ℕ) (r : RetryManager E) where
  -- The function fails `k` times with exceptions that are retried and then returns a value, with `k`
  -- below `max_attempts` and a logger set: the value is returned, after `k + 1` calls and the `k`
  -- delays that `_compute_delay` gives for the attempts 1 to `k`, in this order.
  pub call-returns :
      (k : ℕ) (v : V)
      → k < r.max_attempts
      → r.logger ≡ true
      → ((i : ℕ) → i < k → FailsAt fn uniform r i)
      → fn k ≡ returned v
      → ((call fn uniform r).0 ≡ value v)
        × (number_called (call fn uniform r).1 ≡ suc k)
        × (delays (call fn uniform r).1 ≡ computed_delays fn uniform r k 0)
  unfolding call number_called delays
  call-returns k v below logs fails e =
      let from_0 : (i : ℕ) → 0 + i ≡ i = λ i. omega arith in
      after_failures fn uniform r k (r.max_attempts - k - 1) 0 r.max_attempts (value v) []
        (omega arith) (rw from_0 below) logs (λ i h. rw from_0 (fails i h))
        (value_lem fn uniform r (r.max_attempts - k - 1) (0 + k) v (rw from_0 e)) refl refl

  -- The function fails `k` times with exceptions that are retried and then raises one that is not,
  -- with `k` below `max_attempts` and a logger set: that exception is passed on as it is, after
  -- `k + 1` calls and `k` delays.
  pub call-passes_on :
      (k : ℕ) (exc : E)
      → k < r.max_attempts
      → r.logger ≡ true
      → ((i : ℕ) → i < k → FailsAt fn uniform r i)
      → fn k ≡ raised exc
      → r.retry_exceptions exc ≡ false
      → ((call fn uniform r).0 ≡ passed_on exc)
        × (number_called (call fn uniform r).1 ≡ suc k)
        × (delays (call fn uniform r).1 ≡ computed_delays fn uniform r k 0)
  unfolding call number_called delays
  call-passes_on k exc below logs fails e no_retry =
      let from_0 : (i : ℕ) → 0 + i ≡ i = λ i. omega arith in
      after_failures fn uniform r k (r.max_attempts - k - 1) 0 r.max_attempts (passed_on exc) []
        (omega arith) (rw from_0 below) logs (λ i h. rw from_0 (fails i h))
        (pass_on_lem fn uniform r (r.max_attempts - k - 1) (0 + k) exc (rw from_0 e) no_retry) refl
        refl

  notify_giveup-quiet :
      (exc : E)
      → (number_called (notify_giveup fn uniform r exc) ≡ 0)
        × (delays (notify_giveup fn uniform r exc) ≡ [])
        × (calls_and_sleeps (notify_giveup fn uniform r exc) ≡ [])
  unfolding number_called delays calls_and_sleeps
  notify_giveup-quiet exc = elim (Bool-cases r.on_giveup) [
    | inl e ↦ rw e (refl, refl, refl)
    | inr e ↦ rw e (refl, refl, refl)
  ]

  -- All `max_attempts` attempts fail with exceptions that are retried, the last one with `exc`, and a
  -- logger is set: `RetryError` is raised with that number of attempts and `exc` as its cause, after
  -- exactly that many calls and the delays that `_compute_delay` gives for the retries. The calls and
  -- the delays take turns: one delay behind every call but the last.
  pub call-gives_up :
      (k : ℕ) (exc : E)
      → r.max_attempts ≡ suc k
      → r.logger ≡ true
      → ((i : ℕ) → i < k → FailsAt fn uniform r i)
      → fn k ≡ raised exc
      → r.retry_exceptions exc ≡ true
      → ((call fn uniform r).0 ≡ retry_error (suc k) exc)
        × (number_called (call fn uniform r).1 ≡ suc k)
        × (delays (call fn uniform r).1 ≡ computed_delays fn uniform r k 0)
        × (calls_and_sleeps (call fn uniform r).1 ≡ in_turn fn uniform r k 0)
  unfolding call
  call-gives_up k exc attempts logs fails e retryable =
      let from_0 : (i : ℕ) → 0 + i ≡ i = λ i. omega arith in
      let fails_0 : (i : ℕ) → i < k → FailsAt fn uniform r (0 + i) = λ i h. rw from_0 (fails i h) in
      let one_more : k + 1 ≡ suc k = omega arith in
      let (no_call, no_sleep, neither) = notify_giveup-quiet exc in
      let last : call_from fn uniform 1 (0 + k) r
          ≡ (retry_error (suc k) exc, called (0 + k) ∷ notify_giveup fn uniform r exc) =
        rw from_0
          (give_up_lem fn uniform r 0 k exc e retryable logs (omega arith) ∙ rw one_more refl) in
      let (result, calls, slept_all) =
        after_failures fn uniform r k 0 0 r.max_attempts (retry_error (suc k) exc)
          (notify_giveup fn uniform r exc) (omega arith) (omega arith) logs fails_0 last no_call
          no_sleep in
      let turns =
        order_after_failures fn uniform r k 0 0 r.max_attempts (retry_error (suc k) exc)
          (notify_giveup fn uniform r exc) (omega arith) (omega arith) logs fails_0 last neither in
      (result, calls, slept_all, turns)

  handle-calls :
      (attempt bound : ℕ) (exc : E) (rest : Outcome V E × List (Event E))
      → number_called rest.1 ≤ bound
      → number_called (handle fn uniform r attempt exc rest).1 ≤ bound
  unfolding number_called
  handle-calls attempt bound exc rest h = ground arith

  attempt_once-calls :
      (attempt bound : ℕ) (result : Result V E) (rest : Outcome V E × List (Event E))
      → number_called rest.1 ≤ bound
      → number_called (attempt_once fn uniform r attempt result rest).1 ≤ bound
  unfolding number_called
  attempt_once-calls attempt bound (returned v) rest h = omega arith
  attempt_once-calls attempt bound (raised exc) rest h =
      elim (Bool-cases (r.retry_exceptions exc)) [
        | inl e ↦ rw e (handle-calls (attempt + 1) bound exc rest h)
        | inr e ↦ rw e (omega arith)
      ]

  call_from-calls :
      (rounds attempt : ℕ) → number_called (call_from fn uniform rounds attempt r).1 ≤ rounds
  unfolding call_from number_called
  call_from-calls zero attempt = omega arith
  call_from-calls (suc rounds) attempt = omega (
    arith,
    attempt_once-calls attempt rounds (fn attempt) (call_from fn uniform rounds (attempt + 1) r)
        (call_from-calls rounds (attempt + 1)),
  )

  -- Whatever the function, the exceptions and the settings, the function is not called more than
  -- `max_attempts` times.
  pub call-bounded : number_called (call fn uniform r).1 ≤ r.max_attempts
  unfolding call
  call-bounded = call_from-calls r.max_attempts 0

  computed_delays-backoff :
      AreBetween uniform
      → (k base attempt : ℕ) → base ≡ r.base_delay * power r.backoff_factor attempt
      → let expected = delays_from k base r.backoff_factor (some r.max_delay) in
        AreNear (computed_delays fn uniform r k attempt) expected
        × (r.jitter ≡ false
            → computed_delays fn uniform r k attempt ≡ map (λ (d : ℕ). 10 * d) expected)
  unfolding computed_delays delays_from power
  computed_delays-backoff draws zero base attempt at = (tt, λ off. refl)
  computed_delays-backoff draws (suc k) base attempt at =
      let one_more : attempt + 1 ≡ suc attempt = omega arith in
      let next : base * r.backoff_factor ≡ r.base_delay * power r.backoff_factor (attempt + 1) =
        rw (one_more, at) (omega arith) in
      let (near, same) =
        computed_delays-backoff draws k (base * r.backoff_factor) (attempt + 1) next in
      let (low, high, capped, plain) = compute_delay-bounds uniform r (attempt + 1) draws in
      let first = base_for_lem r attempt base at in
      (
        ((rw first at low, rw first at high), near),
        λ off. let own = plain off in let rest = same off in cc,
      )

  -- The delays of `RetryManager` are those of `ExponentialBackoff` with the same base delay, factor
  -- and cap, one for each retry, each with a jitter of at most 20 percent: whatever is drawn between
  -- the limits, a delay in tenths lies between 8 and 12 times the delay of `ExponentialBackoff`, and
  -- with `jitter` off it is exactly 10 times that delay.
  pub computed_delays_lem :
      AreBetween uniform
      → (k : ℕ)
      → let expected =
          exponential_backoff_delays k r.base_delay r.backoff_factor (some r.max_delay) in
        AreNear (computed_delays fn uniform r k 0) expected
        × (r.jitter ≡ false → computed_delays fn uniform r k 0 ≡ map (λ (d : ℕ). 10 * d) expected)
  unfolding exponential_backoff_delays power
  computed_delays_lem draws k = computed_delays-backoff draws k r.base_delay 0 (omega arith)

-- A decorator with `max_attempts` leaves the manager as it was, whatever the outcome, and with
-- `max_attempts=0` the decorated function raises `RetryError` without a call of the function.
pub decorated_lem :
    {V E : Type 0} (fn : ℕ → Result V E) (uniform : ℕ → ℕ → ℕ → ℕ) (r : RetryManager E)
    (max_attempts : Option ℕ)
    → ((decorated fn uniform max_attempts r).1 ≡ r)
      × ((decorated fn uniform (some 0) r).0 ≡ (exhausted, []))
unfolding decorated call call_from
decorated_lem fn uniform r none = (refl, refl)
decorated_lem fn uniform r (some n) = (refl, refl)
