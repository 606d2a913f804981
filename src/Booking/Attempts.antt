-- ===== src/Booking/Attempts.antt =====
-- How a booking with retries ends, and that it is a sequence of single calls of the app.
use distributed_tickit_syste.Common.{
  ℕ, suc, ◌-◌, ◌<◌, ◌≡◌, refl, ap, ◌⊎◌, inl, inr, String, List, arith, Bool-cases, ℕ_discrete,
}
use distributed_tickit_syste.Retry.Manager.{
  Result, returned, raised, Outcome, value, passed_on, retry_error, call,
}
use distributed_tickit_syste.Retry.Manager.Rounds.{number_called, FailsAt}
use distributed_tickit_syste.Retry.Manager.Calls.{call-returns, call-passes_on, call-gives_up}
use distributed_tickit_syste.Booking.App.{App, Reply, done, fails, BookingError}
use distributed_tickit_syste.Booking.Book.{BookReadings}
use distributed_tickit_syste.Booking.Trace.{Call}
use distributed_tickit_syste.Booking.Retrying.{
  is_transient, manager, Answer, answer, attempt, result_of, attempted, book_with_retry, Ends,
  FailsFor,
}

module _ (hash : String → ℕ) (r : ℕ → BookReadings) (meanwhile : ℕ → List Call)
    (uniform : ℕ → ℕ → ℕ → ℕ) (seat_id : ℕ) (requester : String) (a : App) where
  abbrev pub reply : ℕ → Reply String × App
  reply n = attempt hash r meanwhile uniform seat_id requester a n

  abbrev pub tries : ℕ → Result String BookingError
  tries n = attempted hash r meanwhile uniform seat_id requester a n

  abbrev pub whole : Answer × App
  whole = book_with_retry hash r meanwhile uniform seat_id requester a

  abbrev pub Fails : ℕ → Type 0
  Fails i = FailsFor hash r meanwhile uniform seat_id requester a i

  -- The attempt `n` was the last one.
  abbrev pub StopsAt : ℕ → Type 0
  StopsAt n =
      (n < 3)
      × ((i : ℕ) → i < n → Fails i)
      × (whole.1 ≡ (reply n).1)
      × Ends hash r meanwhile uniform seat_id requester a n whole.0

  result_of-done :
      (p : Reply String × App) (server_id : String)
      → p.0 ≡ done server_id
      → result_of hash r meanwhile uniform seat_id requester a p ≡ returned server_id
  result_of-done (done s, a') server_id e = cc
  result_of-done (fails err, a') server_id e = absurd (cc)

  result_of-fails :
      (p : Reply String × App) (err : BookingError)
      → p.0 ≡ fails err
      → result_of hash r meanwhile uniform seat_id requester a p ≡ raised err
  result_of-fails (done s, a') err e = absurd (cc)
  result_of-fails (fails err', a') err e = cc

  failing : (i : ℕ) → Fails i → FailsAt tries uniform manager i
  failing i (err, e, retryable) = (err, result_of-fails (reply i) err e, retryable)

  -- The whole booking, from what the retry manager does.
  concluded :
      (k : ℕ) (o : Outcome String BookingError)
      → (call tries uniform manager).0 ≡ o
      → number_called (call tries uniform manager).1 ≡ suc k
      → whole ≡ (answer o, (reply k).1)
  unfolding book_with_retry
  concluded k o ends calls = let back : suc k - 1 ≡ k = omega arith in rw (ends, calls, back) refl

  by_reply :
      (n : ℕ)
      → ((server_id : String) × ((reply n).0 ≡ done server_id))
        ⊎ ((e : BookingError) × ((reply n).0 ≡ fails e))
  by_reply n = by_clauses (reply n).0 refl
    where
      by_clauses :
          (x : Reply String)
          → (reply n).0 ≡ x
          → ((server_id : String) × ((reply n).0 ≡ done server_id))
            ⊎ ((e : BookingError) × ((reply n).0 ≡ fails e))
      by_clauses (done s) e = inl (s, e)
      by_clauses (fails err) e = inr (err, e)

  stops : (n : ℕ) → n < 3 → ((i : ℕ) → i < n → Fails i) → StopsAt n ⊎ Fails n
  stops n below before = elim (by_reply n) [
    | inl (s, e) ↦
        let (ends, calls, slept) =
          call-returns tries uniform manager n s below refl (λ i h. failing i (before i h))
            (result_of-done (reply n) s e) in
        let all = concluded n (value s) ends calls in
        inl (below, before, ap (λ w. w.1) all, inl (s, e, ap (λ w. w.0) all))
    | inr (err, e) ↦ elim (Bool-cases (is_transient err)) [
      | inl retryable ↦ inr (err, e, retryable)
      | inr final ↦
          let (ends, calls, slept) =
            call-passes_on tries uniform manager n err below refl (λ i h. failing i (before i h))
              (result_of-fails (reply n) err e) final in
          let all = concluded n (passed_on err) ends calls in
          inl (below, before, ap (λ w. w.1) all, inr (inl (err, e, final, ap (λ w. w.0) all)))
    ]
  ]

  gives_up : ((i : ℕ) → i < 2 → Fails i) → Fails 2 → StopsAt 2
  gives_up before (err, e, retryable) =
      let (ends, calls, slept, turns) =
        call-gives_up tries uniform manager 2 err refl refl (λ i h. failing i (before i h))
          (result_of-fails (reply 2) err e) retryable in
      let all = concluded 2 (retry_error 3 err) ends calls in
      (
        omega arith,
        before,
        ap (λ w. w.1) all,
        inr (inr (err, e, retryable, refl, ap (λ w. w.0) all)),
      )

  one_more : (n : ℕ) → ((i : ℕ) → i < n → Fails i) → Fails n → (i : ℕ) → i < suc n → Fails i
  one_more n before last i below = elim (ℕ_discrete i n) [
    | yes same ↦ rw same last
    | no other ↦ before i (omega (arith, below, other))
  ]

  -- A booking with retries ends after one, two or three attempts, of which all but the last fail for a
  -- reason that may pass. It gives the server if the last one succeeds, the error of the last one
  -- if that may not pass, and gives up otherwise, which it does only after the third. What other
  -- calls do between the attempts stays.
  pub book_with_retry_lem : (n : ℕ) × StopsAt n
  book_with_retry_lem = elim (stops 0 (omega arith) nothing) [
    | inl end ↦ (0, end)
    | inr first ↦
        let before_1 = one_more 0 nothing first in
        elim (stops 1 (omega arith) before_1) [
          | inl end ↦ (1, end)
          | inr second ↦
              let before_2 = one_more 1 before_1 second in
              elim (stops 2 (omega arith) before_2) [
                | inl end ↦ (2, end)
                | inr third ↦ (2, gives_up before_2 third)
              ]
        ]
  ]
    where
      nothing : (i : ℕ) → i < 0 → Fails i
      nothing i h = absurd (omega (arith, h))
