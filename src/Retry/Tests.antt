-- ===== src/Retry/Tests.antt =====
-- Runs of the retry helper at concrete inputs. Exception 1 is retried, exception 2 is not.
use distributed_tickit_syste.Common.{
  ℕ, zero, suc, ◌*◌, ◌≤◌, ◌<◌, ◌≡◌, refl, true, false, some, ◌==◌, if◌then◌else◌, map, arith, ltb,
}
use distributed_tickit_syste.Retry.Backoff.{iter, exponential_backoff_delays}
use distributed_tickit_syste.Retry.Manager.{
  Result, returned, raised, retry_error, RetryManager, base_for, compute_delay, call, decorated,
}
use distributed_tickit_syste.Retry.Manager.Rounds.{
  number_called, delays, FailsAt, computed_delays, calls_and_sleeps, in_turn,
}
use distributed_tickit_syste.Retry.Manager.Calls.{
  AreBetween, AreNear, call-gives_up, computed_delays_lem, compute_delay-bounds,
}

program : Unit {0}
unfolding call compute_delay computed_delays iter decorated number_called delays
program = tt

abbrev manager : RetryManager ℕ
manager = record {
  max_attempts = 3;
  base_delay = 200;
  backoff_factor = 2;
  max_delay = 300;
  jitter = false;
  retry_exceptions = λ (e : ℕ). e == 1;
  on_retry = true;
  on_giveup = true;
  logger = true;
}

abbrev no_draw : ℕ → ℕ → ℕ → ℕ
no_draw i low high = low

-- Raises exception 1 twice, then does as given.
abbrev third : Result ℕ ℕ → ℕ → Result ℕ ℕ
third last i = if ltb i 2 then raised 1 else last

third_fails : (last : Result ℕ ℕ) (i : ℕ) → i < 2 → FailsAt (third last) no_draw manager i
third_fails last zero h = (1, refl, refl)
third_fails last (suc zero) h = (1, refl, refl)
third_fails last (suc (suc i)) h = absurd (omega arith)

call-gives_up_example :
    ((call (third (raised 1)) no_draw manager).0 ≡ retry_error 3 1)
    × (number_called (call (third (raised 1)) no_draw manager).1 ≡ 3)
    × (delays (call (third (raised 1)) no_draw manager).1
        ≡ computed_delays (third (raised 1)) no_draw manager 2 0)
    × (calls_and_sleeps (call (third (raised 1)) no_draw manager).1
        ≡ in_turn (third (raised 1)) no_draw manager 2 0)
call-gives_up_example =
    call-gives_up (third (raised 1)) no_draw manager 2 1 refl refl (third_fails (raised 1)) refl
      refl

low_draws : AreBetween no_draw
low_draws i low high h = (omega arith, h)

computed_delays_lem_example :
    AreNear
      (computed_delays (third (returned 7)) no_draw manager 2 0)
      (exponential_backoff_delays 2 200 2 (some 300))
    × (false ≡ false
        → computed_delays (third (returned 7)) no_draw manager 2 0
          ≡ map (λ (d : ℕ). 10 * d) (exponential_backoff_delays 2 200 2 (some 300)))
computed_delays_lem_example = computed_delays_lem (third (returned 7)) no_draw manager low_draws 2

compute_delay-bounds_example :
    (8 * base_for manager 2 ≤ compute_delay no_draw manager 2)
    × (compute_delay no_draw manager 2 ≤ 12 * base_for manager 2)
    × (base_for manager 2 ≤ 300)
    × (false ≡ false → compute_delay no_draw manager 2 ≡ 10 * base_for manager 2)
compute_delay-bounds_example = compute_delay-bounds no_draw manager 2 low_draws
