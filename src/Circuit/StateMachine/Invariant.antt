-- ===== src/Circuit/StateMachine/Invariant.antt =====
-- The counters of the state machine stay below their limits, and its state moves along the
-- documented edges only.
use distributed_tickit_syste.Common.{
  ℕ, ◌<◌, ◌≡◌, Option, none, some, List, [], ◌∷◌, ◌++◌, arith, refl,
}
use distributed_tickit_syste.Circuit.StateMachine.{
  CircuitState, closed, opened, half_open, CircuitBreaker, transition, read_state, allow_request,
  record_success, record_failure, notify,
}

-- What the counters may be in each state.
abbrev pub CountsFit : CircuitState → CircuitBreaker → Type 0
CountsFit closed cb = (cb.failure_count < cb.failure_threshold) × (cb.half_open_success_count ≡ 0)
CountsFit opened cb = cb.half_open_success_count ≡ 0
CountsFit half_open cb = cb.half_open_success_count < cb.half_open_successes

-- The moves of the diagram, and OPEN again: a failure that is reported while the circuit is open.
abbrev pub Edge : CircuitState → CircuitState → Type 0
Edge closed opened = Unit
Edge opened opened = Unit
Edge opened half_open = Unit
Edge half_open opened = Unit
Edge half_open closed = Unit
Edge _ _ = ⊥

-- A list of moves that leads from one state to another.
abbrev pub Leads : CircuitState → List (CircuitState × CircuitState) → CircuitState → Type 0
Leads a [] b = a ≡ b
Leads a ((x, y) ∷ moves) b = (a ≡ x) × Edge x y × Leads y moves b

pub Leads-snoc :
    (a b c : CircuitState) (moves : List (CircuitState × CircuitState))
    → Leads a moves b
    → Edge b c
    → Leads a (moves ++ (b, c) ∷ []) c
Leads-snoc a b c [] h e = (h, e, refl)
Leads-snoc a b c (m ∷ moves) h e = (h.0, h.1, Leads-snoc m.1 b c moves h.2 e)

-- What the callback has been told leads from CLOSED to the present state.
abbrev pub Told : Option (List (CircuitState × CircuitState)) → CircuitState → Type 0
Told none s = Unit
Told (some moves) s = Leads closed moves s

pub record IsValid (cb : CircuitBreaker) : Type 0 where
  pub threshold : 0 < cb.failure_threshold
  pub successes : 0 < cb.half_open_successes
  pub counts : CountsFit cb.state cb
  pub told : Told cb.on_state_change cb.state

Told-notify :
    (a b : CircuitState) (calls : Option (List (CircuitState × CircuitState)))
    → Told calls a
    → Edge a b
    → Told (notify a b calls) b
Told-notify a b none h e = tt
Told-notify a b (some moves) h e = Leads-snoc closed a b moves h e

module _ (cb : CircuitBreaker) (v : IsValid cb) where
  pub open-IsValid : (now : ℕ) → IsValid (transition now opened cb)
  unfolding transition
  open-IsValid now = ground (arith, Told-notify cb.state opened cb.on_state_change)

  pub allow_request-IsValid : (now : ℕ) → IsValid (allow_request now cb).1
  unfolding allow_request
  allow_request-IsValid now = ground (arith, Told-notify cb.state half_open cb.on_state_change)

  pub read_state-IsValid : (now : ℕ) → IsValid (read_state now cb).1
  unfolding read_state
  read_state-IsValid now = ground (arith, Told-notify cb.state half_open cb.on_state_change)

  pub record_success-IsValid : IsValid (record_success cb)
  unfolding record_success
  record_success-IsValid = ground (arith, Told-notify cb.state closed cb.on_state_change)

  pub record_failure-IsValid : (first second : ℕ) → IsValid (record_failure first second cb)
  unfolding record_failure
  record_failure-IsValid first second =
      ground (arith, Told-notify cb.state opened cb.on_state_change)
