-- ===== src/Booking/Simulation.antt =====
-- dashboard.py: `simulate_retry`, a call of the retry manager whose operation fails twice. What it
-- writes to the log and to the retry status while it runs is not modelled.
use distributed_tickit_syste.Common.{ℕ, zero, suc, ◌-◌, ◌≡◌, refl, String, true, false}
use distributed_tickit_syste.Retry.Manager.{
  RetryManager, Result, returned, raised, Outcome, value, passed_on, retry_error, exhausted,
  no_logger, call, call_from, compute_delay,
}
use distributed_tickit_syste.Booking.App.{App}
use distributed_tickit_syste.Booking.Methods.{count_failure}
use distributed_tickit_syste.Retry.Manager.Rounds.{number_called}

-- `TransientBookingError("temporary capacity spike")`
pub data CapacitySpike : Type 0 where
  temporary_capacity_spike : CapacitySpike

-- The attempt, counted from 0.
abbrev pub flaky_operation : ℕ → Result String CapacitySpike
flaky_operation zero = raised temporary_capacity_spike
flaky_operation (suc zero) = raised temporary_capacity_spike
flaky_operation (suc (suc n)) = returned "ok"

-- Delays are in milliseconds.
abbrev pub simulation_manager : RetryManager CapacitySpike
simulation_manager = record {
  max_attempts = 4;
  base_delay = 250;
  backoff_factor = 2;
  max_delay = 2000;
  jitter = true;
  retry_exceptions = λ e. true;
  on_retry = true;
  on_giveup = false;
  logger = true;
}

-- The reply; `count` is the one in the retry status. An exception passes through.
pub data Simulation : Type 0 where
  succeeded : (count : ℕ) → Simulation
  simulation_failed : Simulation
  simulation_raises : Simulation

abbrev pub settle_simulation :
    Outcome String CapacitySpike → (attempts : ℕ) → App → Simulation × App
settle_simulation (value v) attempts a = (succeeded (attempts - 1), a)
settle_simulation (passed_on e) attempts a = (simulation_raises, a)
settle_simulation (retry_error n e) attempts a = (simulation_failed, count_failure a)
settle_simulation exhausted attempts a = (simulation_failed, count_failure a)
settle_simulation no_logger attempts a = (simulation_raises, a)

unfoldable pub simulate_retry : (uniform : ℕ → ℕ → ℕ → ℕ) → App → Simulation × App
simulate_retry uniform a =
    let (outcome, events) = call flaky_operation uniform simulation_manager in
    settle_simulation outcome (number_called events) a

-- Whatever the jitter, the simulation succeeds at its third attempt after two retries, and counts no
-- failure.
pub simulate_retry_lem :
    (uniform : ℕ → ℕ → ℕ → ℕ) (a : App) → simulate_retry uniform a ≡ (succeeded 2, a)
unfolding simulate_retry call call_from compute_delay number_called
simulate_retry_lem uniform a = refl
