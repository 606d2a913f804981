-- ===== src/Retry/Manager/Rounds.antt =====
-- The rounds of the loop in `RetryManager.call`: each branch of one round, and a run of failures.
use distributed_tickit_syste.Common.{
  ℕ, zero, suc, ◌+◌, ◌<◌, ◌≡◌, refl, ◌∙◌, ap, true, false, List, [], ◌∷◌, ◌++◌, leb, arith,
}
use distributed_tickit_syste.Retry.Manager.{
  Result, returned, raised, Outcome, value, passed_on, retry_error, Event, called, retried, slept,
  gave_up, RetryManager, compute_delay, notify_retry, notify_giveup, call_from,
}

-- How often the function was called.
unfoldable pub number_called : {E : Type 0} → List (Event E) → ℕ
number_called [] = 0
number_called (called i ∷ es) = suc (number_called es)
number_called (retried i e d ∷ es) = number_called es
number_called (slept d ∷ es) = number_called es
number_called (gave_up e ∷ es) = number_called es

-- The delays that were slept.
unfoldable pub delays : {E : Type 0} → List (Event E) → List ℕ
delays [] = []
delays (called i ∷ es) = delays es
delays (retried i e d ∷ es) = delays es
delays (slept d ∷ es) = d ∷ delays es
delays (gave_up e ∷ es) = delays es

-- The calls and the sleeps, in their order, without the callbacks between them.
unfoldable pub calls_and_sleeps : {E : Type 0} → List (Event E) → List (Event E)
calls_and_sleeps [] = []
calls_and_sleeps (called i ∷ es) = called i ∷ calls_and_sleeps es
calls_and_sleeps (retried i e d ∷ es) = calls_and_sleeps es
calls_and_sleeps (slept d ∷ es) = slept d ∷ calls_and_sleeps es
calls_and_sleeps (gave_up e ∷ es) = calls_and_sleeps es

module _ {V E : Type 0} (fn : ℕ → Result V E) (uniform : ℕ → ℕ → ℕ → ℕ) (r : RetryManager E) where
  -- The function raises an exception that is retried.
  abbrev pub FailsAt : ℕ → Type 0
  FailsAt i = (exc : E) × (fn i ≡ raised exc) × (r.retry_exceptions exc ≡ true)

  -- The delays for `k` retries, when `attempt` attempts have failed before the first of them.
  unfoldable pub computed_delays : (k attempt : ℕ) → List ℕ
  computed_delays zero attempt = []
  computed_delays (suc k) attempt =
      compute_delay uniform r (attempt + 1) ∷ computed_delays k (attempt + 1)

  -- A call for each of the attempts from `attempt` on, with the delay for a retry between any two.
  unfoldable pub in_turn : (k attempt : ℕ) → List (Event E)
  in_turn zero attempt = called attempt ∷ []
  in_turn (suc k) attempt =
      called attempt ∷ slept (compute_delay uniform r (attempt + 1)) ∷ in_turn k (attempt + 1)

  calls_and_sleeps-notify :
      (attempt : ℕ) (exc : E) (es : List (Event E))
      → calls_and_sleeps (notify_retry fn uniform r attempt exc ++ es) ≡ calls_and_sleeps es
  unfolding calls_and_sleeps
  calls_and_sleeps-notify attempt exc es = ground arith

  number_called-notify :
      (attempt : ℕ) (exc : E) (es : List (Event E))
      → number_called (notify_retry fn uniform r attempt exc ++ es) ≡ number_called es
  unfolding number_called
  number_called-notify attempt exc es = ground arith

  delays-notify :
      (attempt : ℕ) (exc : E) (es : List (Event E))
      → delays (notify_retry fn uniform r attempt exc ++ es) ≡ delays es
  unfolding delays
  delays-notify attempt exc es = ground arith

  -- A round that fails while attempts are left goes on to the next one.
  pub retry_lem :
      (rounds attempt : ℕ) (exc : E)
      → fn attempt ≡ raised exc
      → r.retry_exceptions exc ≡ true
      → r.logger ≡ true
      → attempt + 1 < r.max_attempts
      → call_from fn uniform (suc rounds) attempt r ≡ (
        (call_from fn uniform rounds (attempt + 1) r).0,
        called attempt
            ∷ (notify_retry fn uniform r (attempt + 1) exc
                ++ slept (compute_delay uniform r (attempt + 1))
                  ∷ (call_from fn uniform rounds (attempt + 1) r).1),
      )
  unfolding call_from
  retry_lem rounds attempt exc e retryable logs below =
      let more : leb r.max_attempts (attempt + 1) ≡ false = ground arith in rw e cc

  pub give_up_lem :
      (rounds attempt : ℕ) (exc : E)
      → fn attempt ≡ raised exc
      → r.retry_exceptions exc ≡ true
      → r.logger ≡ true
      → r.max_attempts ≡ attempt + 1
      → call_from fn uniform (suc rounds) attempt r
        ≡ (retry_error (attempt + 1) exc, called attempt ∷ notify_giveup fn uniform r exc)
  unfolding call_from
  give_up_lem rounds attempt exc e retryable logs last =
      let no_more : leb r.max_attempts (attempt + 1) ≡ true = ground arith in rw e cc

  pub pass_on_lem :
      (rounds attempt : ℕ) (exc : E)
      → fn attempt ≡ raised exc
      → r.retry_exceptions exc ≡ false
      → call_from fn uniform (suc rounds) attempt r ≡ (passed_on exc, called attempt ∷ [])
  unfolding call_from
  pass_on_lem rounds attempt exc e no_retry = rw e cc

  pub value_lem :
      (rounds attempt : ℕ) (v : V)
      → fn attempt ≡ returned v
      → call_from fn uniform (suc rounds) attempt r ≡ (value v, called attempt ∷ [])
  unfolding call_from
  value_lem rounds attempt v e = rw e refl

  -- The first `k` attempts from `attempt` on fail, and the next round ends the loop.
  pub after_failures :
      (k rest attempt rounds : ℕ) (o : Outcome V E) (es : List (Event E))
      → rounds ≡ k + suc rest
      → attempt + k < r.max_attempts
      → r.logger ≡ true
      → ((i : ℕ) → i < k → FailsAt (attempt + i))
      → call_from fn uniform (suc rest) (attempt + k) r ≡ (o, called (attempt + k) ∷ es)
      → number_called es ≡ 0
      → delays es ≡ []
      → ((call_from fn uniform rounds attempt r).0 ≡ o)
        × (number_called (call_from fn uniform rounds attempt r).1 ≡ suc k)
        × (delays (call_from fn uniform rounds attempt r).1 ≡ computed_delays k attempt)
  unfolding number_called delays computed_delays
  after_failures zero rest attempt rounds o es all below logs fails last none_called none_slept =
      let here : attempt + 0 ≡ attempt = omega arith in
      let only : rounds ≡ suc rest = omega arith in
      let last' : call_from fn uniform rounds attempt r ≡ (o, called attempt ∷ es) =
        rw (only, ← here) (last ∙ rw here refl) in
      rw last' (refl, ap (λ (n : ℕ). suc n) none_called, none_slept)
  after_failures (suc k) rest attempt rounds o es all below logs fails last none_called none_slept =
      let shift : (i : ℕ) → attempt + suc i ≡ (attempt + 1) + i = λ i. omega arith in
      let one_more : rounds ≡ suc (k + suc rest) = omega arith in
      let here : attempt + 0 ≡ attempt = omega arith in
      let (exc, e, retryable) = fails 0 (omega arith) in
      let step = retry_lem (k + suc rest) attempt exc (rw here at e) retryable logs (omega arith) in
      let (result, calls, slept_all) =
        after_failures k rest (attempt + 1) (k + suc rest) o es refl (omega arith) logs
          (λ i h. rw shift at (fails (suc i) (omega arith))) (rw (shift k) at last) none_called
          none_slept in
      rw (one_more, step)
        (
          result,
          ap (λ (n : ℕ). suc n) (number_called-notify (attempt + 1) exc _ ∙ calls),
          delays-notify (attempt + 1) exc _
              ∙ ap (λ ds. compute_delay uniform r (attempt + 1) ∷ ds) slept_all,
        )

  -- The same with the order of the calls and the sleeps.
  pub order_after_failures :
      (k rest attempt rounds : ℕ) (o : Outcome V E) (es : List (Event E))
      → rounds ≡ k + suc rest
      → attempt + k < r.max_attempts
      → r.logger ≡ true
      → ((i : ℕ) → i < k → FailsAt (attempt + i))
      → call_from fn uniform (suc rest) (attempt + k) r ≡ (o, called (attempt + k) ∷ es)
      → calls_and_sleeps es ≡ []
      → calls_and_sleeps (call_from fn uniform rounds attempt r).1 ≡ in_turn k attempt
  unfolding calls_and_sleeps in_turn
  order_after_failures zero rest attempt rounds o es all below logs fails last quiet =
      let here : attempt + 0 ≡ attempt = omega arith in
      let only : rounds ≡ suc rest = omega arith in
      let last' : call_from fn uniform rounds attempt r ≡ (o, called attempt ∷ es) =
        rw (only, ← here) (last ∙ rw here refl) in
      rw last' (ap (◌∷◌ (called attempt)) quiet)
  order_after_failures (suc k) rest attempt rounds o es all below logs fails last quiet =
      let shift : (i : ℕ) → attempt + suc i ≡ (attempt + 1) + i = λ i. omega arith in
      let one_more : rounds ≡ suc (k + suc rest) = omega arith in
      let here : attempt + 0 ≡ attempt = omega arith in
      let (exc, e, retryable) = fails 0 (omega arith) in
      let step = retry_lem (k + suc rest) attempt exc (rw here at e) retryable logs (omega arith) in
      let later =
        order_after_failures k rest (attempt + 1) (k + suc rest) o es refl (omega arith) logs
          (λ i h. rw shift at (fails (suc i) (omega arith))) (rw (shift k) at last) quiet in
      rw (one_more, step)
        (ap (◌∷◌ (called attempt)) (
          calls_and_sleeps-notify (attempt + 1) exc _
          ∙ ap (◌∷◌ (slept (compute_delay uniform r (attempt + 1)))) later))
