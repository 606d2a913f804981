-- ===== src/Retry/Manager.antt =====
-- retry/retry_manager.py. The function that is called is given by what each of its calls does, the
-- random numbers by the draws of `random.uniform`. A delay that is computed is in tenths of the unit,
-- so that `delay * 0.8` and `delay * 1.2` are exact.
use distributed_tickit_syste.Common.{
  ℕ, zero, suc, ◌+◌, ◌*◌, ◌-◌, ◌≤◌, ◌<◌, ◌≡◌, refl, Bool, true, false, Option, none, some, List, [],
  ◌∷◌, ◌++◌, if◌then◌else◌, leb, min, max, arith,
}
use distributed_tickit_syste.Retry.Backoff.{power}
pub mod Rounds
pub mod Calls

-- `fn` returns a value or raises an exception.
pub data Result (V E : Type 0) : Type 0 where
  returned : V → Result V E
  raised : E → Result V E

-- What `call` ends with: the value, an exception that is not retried, `RetryError` with the number
-- of attempts and its cause, `RetryError` behind the loop, and the `TypeError` of a call of the logger
-- when it is `None`.
pub data Outcome (V E : Type 0) : Type 0 where
  value : V → Outcome V E
  passed_on : E → Outcome V E
  retry_error : ℕ → E → Outcome V E
  exhausted : Outcome V E
  no_logger : Outcome V E

-- What `call` does on the way. The messages that are logged are not modelled.
pub data Event (E : Type 0) : Type 0 where
  called : ℕ → Event E
  retried : ℕ → E → ℕ → Event E
  slept : ℕ → Event E
  gave_up : E → Event E

pub record RetryManager (E : Type 0) : Type 0 where
  pub max_attempts : ℕ
  pub base_delay : ℕ
  pub backoff_factor : ℕ
  pub max_delay : ℕ
  pub jitter : Bool
  pub retry_exceptions : E → Bool
  pub on_retry : Bool
  pub on_giveup : Bool
  pub logger : Bool

-- `__init__`: at least one attempt.
unfoldable pub init : {E : Type 0} → RetryManager E → RetryManager E
init r = record r { max_attempts = max 1 r.max_attempts }

-- `min(max_delay, base_delay * backoff_factor ** (attempt - 1))`
abbrev pub base_for : {E : Type 0} → RetryManager E → ℕ → ℕ
base_for r attempt = min r.max_delay (r.base_delay * power r.backoff_factor (attempt - 1))

-- `_compute_delay`; `uniform attempt low high` is the draw for that attempt.
unfoldable pub compute_delay : {E : Type 0} → (ℕ → ℕ → ℕ → ℕ) → RetryManager E → ℕ → ℕ
compute_delay uniform r attempt =
    let delay = base_for r attempt in
    if r.jitter then uniform attempt (8 * delay) (12 * delay) else 10 * delay

module _ {V E : Type 0} (fn : ℕ → Result V E) (uniform : ℕ → ℕ → ℕ → ℕ) where
  -- The callback `on_retry` is called if there is one; what it raises is caught.
  abbrev pub notify_retry : RetryManager E → ℕ → E → List (Event E)
  notify_retry r attempt exc =
      if r.on_retry then retried attempt exc (compute_delay uniform r attempt) ∷ [] else []

  abbrev pub notify_giveup : RetryManager E → E → List (Event E)
  notify_giveup r exc = if r.on_giveup then gave_up exc ∷ [] else []

  -- The `except` clause, `rest` being the rounds that follow.
  abbrev pub handle :
      RetryManager E → ℕ → E → Outcome V E × List (Event E) → Outcome V E × List (Event E)
  handle r attempt exc rest =
      if leb r.max_attempts attempt
      then (if r.logger then retry_error attempt exc else no_logger, notify_giveup r exc)
      else if r.logger
      then (rest.0, notify_retry r attempt exc ++ slept (compute_delay uniform r attempt) ∷ rest.1)
      else (no_logger, [])

  -- The `try` statement of one round.
  abbrev pub attempt_once :
      RetryManager E → ℕ → Result V E → Outcome V E × List (Event E) → Outcome V E × List (Event E)
  attempt_once r attempt (returned v) rest = (value v, [])
  attempt_once r attempt (raised exc) rest =
      if r.retry_exceptions exc then handle r (attempt + 1) exc rest else (passed_on exc, [])

  -- The rounds of the loop that are left after `attempt` failed attempts.
  unfoldable pub call_from : (rounds attempt : ℕ) → RetryManager E → Outcome V E × List (Event E)
  call_from zero attempt r = (exhausted, [])
  call_from (suc rounds) attempt r =
      let rest = call_from rounds (attempt + 1) r in
      let after = attempt_once r attempt (fn attempt) rest in (after.0, called attempt ∷ after.1)

  unfoldable pub call : RetryManager E → Outcome V E × List (Event E)
  call r = call_from r.max_attempts 0 r

  -- `decorator(max_attempts)`: the manager is changed for the call and put back.
  unfoldable pub decorated :
      Option ℕ → RetryManager E → (Outcome V E × List (Event E)) × RetryManager E
  decorated none r = (call r, r)
  decorated (some max_attempts) r =
      let inner = record r { max_attempts = max_attempts } in
      (call inner, record inner { max_attempts = r.max_attempts })
