-- ===== src/Booking/Retrying.antt =====
-- dashboard.py: `book_with_retry`, a booking through the retry manager. Each attempt holds the app's
-- lock, the sleep between two attempts does not: `meanwhile` has the calls that other threads make in
-- it. `retry_status` and the events for the reply are not modelled.
use distributed_tickit_syste.Common.{
  ℕ, zero, suc, ◌-◌, ◌≡◌, ◌⊎◌, String, Bool, true, false, List, [], ◌∷◌,
}
use distributed_tickit_syste.Retry.Manager.{
  RetryManager, Result, returned, raised, Outcome, value, passed_on, retry_error, exhausted,
  no_logger, call,
}
use distributed_tickit_syste.Retry.Manager.Rounds.{number_called}
use distributed_tickit_syste.Booking.App.{
  App, Reply, done, fails, BookingError, transient, not_retryable, lease_conflict, key_error,
  Reason,
}
use distributed_tickit_syste.Booking.Book.{BookReadings, book_locked}
use distributed_tickit_syste.Booking.Trace.{Call, after}

-- `retry_exceptions=(TransientBookingError,)`
abbrev pub is_transient : BookingError → Bool
is_transient (transient reason) = true
is_transient (not_retryable reason) = false
is_transient (lease_conflict e) = false
is_transient (key_error key) = false

-- Delays are in milliseconds.
abbrev pub manager : RetryManager BookingError
manager = record {
  max_attempts = 3;
  base_delay = 250;
  backoff_factor = 2;
  max_delay = 1000;
  jitter = true;
  retry_exceptions = is_transient;
  on_retry = true;
  on_giveup = true;
  logger = true;
}

-- How `book_with_retry` ends: with the reply of the booking, with one of the two replies of `_fail`, or
-- with an exception.
pub data Answer : Type 0 where
  booked : (server_id : String) → Answer
  blocked : Reason → Answer
  retry_failed : Answer
  raises : BookingError → Answer
  type_error : Answer

abbrev pub passed : BookingError → Answer
passed (not_retryable reason) = blocked reason
passed (transient reason) = raises (transient reason)
passed (lease_conflict e) = raises (lease_conflict e)
passed (key_error key) = raises (key_error key)

abbrev pub answer : Outcome String BookingError → Answer
answer (value server_id) = booked server_id
answer (passed_on e) = passed e
answer (retry_error attempts e) = retry_failed
answer exhausted = retry_failed
answer no_logger = type_error

unfoldable pub after_all : (hash : String → ℕ) → List Call → App → App
after_all hash [] a = a
after_all hash (c ∷ calls) a = after_all hash calls (after hash c a)

module _ (hash : String → ℕ) (r : ℕ → BookReadings) (meanwhile : ℕ → List Call)
    (uniform : ℕ → ℕ → ℕ → ℕ) (seat_id : ℕ) (requester : String) (a : App) where
  -- The app before an attempt, counted from 0.
  unfoldable pub app_at : ℕ → App
  unfolding after_all
  app_at zero = a
  app_at (suc n) =
      after_all hash (meanwhile n) (book_locked hash (r n) seat_id requester (app_at n)).1

  abbrev pub attempt : ℕ → Reply String × App
  attempt n = book_locked hash (r n) seat_id requester (app_at n)

  abbrev pub result_of : Reply String × App → Result String BookingError
  result_of (done server_id, a') = returned server_id
  result_of (fails e, a') = raised e

  abbrev pub attempted : ℕ → Result String BookingError
  attempted n = result_of (attempt n)

  unfoldable pub book_with_retry : Answer × App
  unfolding app_at
  book_with_retry =
      let (outcome, events) = call attempted uniform manager in
      (answer outcome, (attempt (number_called events - 1)).1)

  -- The attempt ends the booking: it succeeds, it fails for good, or it is the third one.
  abbrev pub Ends : ℕ → Answer → Type 0
  Ends n x =
      ((server_id : String) × ((attempt n).0 ≡ done server_id) × (x ≡ booked server_id))
      ⊎ (((e : BookingError) × ((attempt n).0 ≡ fails e)
            × (is_transient e ≡ false)
            × (x ≡ passed e))
          ⊎ ((e : BookingError) × ((attempt n).0 ≡ fails e)
              × (is_transient e ≡ true)
              × (n ≡ 2)
              × (x ≡ retry_failed)))

  abbrev pub FailsFor : ℕ → Type 0
  FailsFor i = (e : BookingError) × ((attempt i).0 ≡ fails e) × (is_transient e ≡ true)
