-- ===== src/Retry/Backoff.antt =====
-- retry/exponential_backoff.py
use distributed_tickit_syste.Common.{
  ℕ, zero, suc, ◌*◌, ◌<◌, ◌≡◌, refl, ◌∙◌, ap, Option, none, some, List, [], ◌∷◌, get_elem?, min,
  arith,
}

-- `factor ** n`
unfoldable pub power : ℕ → ℕ → ℕ
power factor zero = 1
power factor (suc n) = factor * power factor n

abbrev pub capped : Option ℕ → ℕ → ℕ
capped none delay = delay
capped (some max_delay) delay = min delay max_delay

-- The rounds of the loop that are left, with the delay it has reached.
unfoldable pub delays_from : (rounds delay factor : ℕ) → Option ℕ → List ℕ
delays_from zero delay factor max_delay = []
delays_from (suc rounds) delay factor max_delay =
    capped max_delay delay ∷ delays_from rounds (delay * factor) factor max_delay

unfoldable pub exponential_backoff_delays : (max_attempts base_delay factor : ℕ) → Option ℕ → List ℕ
exponential_backoff_delays max_attempts base_delay factor max_delay =
    delays_from max_attempts base_delay factor max_delay

pub record ExponentialBackoff : Type 0 where
  pub max_attempts : ℕ
  pub base_delay : ℕ
  pub factor : ℕ
  pub max_delay : Option ℕ

-- `__iter__`
unfoldable pub iter : ExponentialBackoff → List ℕ
iter b = exponential_backoff_delays b.max_attempts b.base_delay b.factor b.max_delay

delays_from_lem :
    (rounds delay factor : ℕ) (max_delay : Option ℕ) (k : ℕ)
    → k < rounds
    → get_elem? (delays_from rounds delay factor max_delay) k
      ≡ some (capped max_delay (delay * power factor k))
unfolding delays_from power
delays_from_lem zero delay factor max_delay k h = absurd (omega arith)
delays_from_lem (suc rounds) delay factor max_delay zero h =
    let one : delay * 1 ≡ delay = omega arith in rw one refl
delays_from_lem (suc rounds) delay factor max_delay (suc k) h =
    delays_from_lem rounds (delay * factor) factor max_delay k (omega arith)
    ∙ ap (λ (d : ℕ). some (capped max_delay d)) (omega arith)

-- The delay number `k` that an `ExponentialBackoff` yields, for `k` below its `max_attempts`, is
-- `base_delay * factor ** k`, or `max_delay` where that is set and smaller.
pub iter_lem :
    (b : ExponentialBackoff) (k : ℕ)
    → k < b.max_attempts
    → get_elem? (iter b) k ≡ some (capped b.max_delay (b.base_delay * power b.factor k))
unfolding iter exponential_backoff_delays
iter_lem b k h = delays_from_lem b.max_attempts b.base_delay b.factor b.max_delay k h
