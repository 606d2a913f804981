-- ===== src/Booking/Threads.antt =====
-- A booking with retries is a sequence of single calls of the app.
use distributed_tickit_syste.Common.{ℕ, zero, suc, ◌<◌, String, List, [], ◌∷◌, All, arith}
use distributed_tickit_syste.Booking.App.{App}
use distributed_tickit_syste.Booking.Desk.{Seat}
use distributed_tickit_syste.Booking.Kept.{IsReserved}
use distributed_tickit_syste.Booking.Book.{BookReadings}
use distributed_tickit_syste.Booking.Trace.{Call, book, after, IsFresh}
use distributed_tickit_syste.Booking.Reach.{Reach, next, IsNotReset, after-IsReserved}
use distributed_tickit_syste.Booking.Retrying.{after_all, app_at, book_with_retry, FailsFor}
use distributed_tickit_syste.Booking.Attempts.{reply, book_with_retry_lem}

-- The apps that calls of a kind lead to from `a`.
pub data Trail (hash : String → ℕ) (Allowed : Call → Type 0) (a : App) : App → Type 0 where
  here : Trail hash Allowed a a
  step :
      {b : App} (call : Call)
      → Trail hash Allowed a b
      → IsFresh call b
      → Allowed call
      → Trail hash Allowed a (after hash call b)

pub Trail-Reach :
    {hash : String → ℕ} {Allowed : Call → Type 0} {a b : App}
    → Reach hash a
    → Trail hash Allowed a b
    → Reach hash b
Trail-Reach reached here = reached
Trail-Reach reached (step call path fresh allowed) = next call (Trail-Reach reached path) fresh

-- A confirmed seat stays as it is on every path without a reset.
pub Trail-IsReserved :
    {hash : String → ℕ} {a b : App} (k : ℕ) (seat : Seat)
    → Reach hash a
    → Trail hash IsNotReset a b
    → IsReserved k seat a.desk
    → IsReserved k seat b.desk
Trail-IsReserved k seat reached here held = held
Trail-IsReserved k seat reached (step call path fresh allowed) held =
    after-IsReserved call k seat (Trail-Reach reached path) allowed
      (Trail-IsReserved k seat reached path held)

pub Trail-trans :
    {hash : String → ℕ} {Allowed : Call → Type 0} {a b c : App}
    → Trail hash Allowed a b
    → Trail hash Allowed b c
    → Trail hash Allowed a c
Trail-trans first here = first
Trail-trans first (step call path fresh allowed) = step call (Trail-trans first path) fresh allowed

-- Each call finds a fresh id, if it needs one.
abbrev pub AreFresh : (hash : String → ℕ) → List Call → App → Type 0
AreFresh hash [] a = Unit
AreFresh hash (c ∷ calls) a = IsFresh c a × AreFresh hash calls (after hash c a)

after_all-Trail :
    (hash : String → ℕ) (Allowed : Call → Type 0) (calls : List Call) {start : App} (a : App)
    → Trail hash Allowed start a
    → AreFresh hash calls a
    → All Allowed calls
    → Trail hash Allowed start (after_all hash calls a)
unfolding after_all
after_all-Trail hash Allowed [] a path fresh allowed = path
after_all-Trail hash Allowed (c ∷ calls) a path (first, rest) (this, those) =
    after_all-Trail hash Allowed calls (after hash c a) (step c path first this) rest those

module _ (hash : String → ℕ) (r : ℕ → BookReadings) (meanwhile : ℕ → List Call)
    (uniform : ℕ → ℕ → ℕ → ℕ) (seat_id : ℕ) (requester : String) (a : App) where
  -- All the attempts before fail for a reason that may pass.
  abbrev pub FailsBefore : ℕ → Type 0
  FailsBefore n = (i : ℕ) → i < n → FailsFor hash r meanwhile uniform seat_id requester a i

  -- In each attempt that is made the booking gets a fresh id.
  abbrev pub HasFresh : Type 0
  HasFresh =
      (n : ℕ)
      → FailsBefore n
      → IsFresh (book (r n) seat_id requester)
          (app_at hash r meanwhile uniform seat_id requester a n)

  -- So do the calls between two attempts.
  abbrev pub OthersHaveFresh : Type 0
  OthersHaveFresh =
      (n : ℕ)
      → FailsBefore (suc n)
      → AreFresh hash (meanwhile n) (reply hash r meanwhile uniform seat_id requester a n).1

  module _ (Allowed : Call → Type 0) (fresh : HasFresh) (others_fresh : OthersHaveFresh)
      (allowed : (n : ℕ) → Allowed (book (r n) seat_id requester))
      (others_allowed : (n : ℕ) → All Allowed (meanwhile n)) where
    attempt-Trail :
        (n : ℕ)
        → FailsBefore n
        → Trail hash Allowed a (app_at hash r meanwhile uniform seat_id requester a n)
        → Trail hash Allowed a (reply hash r meanwhile uniform seat_id requester a n).1
    unfolding after
    attempt-Trail n before there =
        step (book (r n) seat_id requester) there (fresh n before) (allowed n)

    app_at-Trail :
        (n : ℕ)
        → FailsBefore n
        → Trail hash Allowed a (app_at hash r meanwhile uniform seat_id requester a n)
    unfolding app_at
    app_at-Trail zero before = here
    app_at-Trail (suc n) before =
        let earlier : FailsBefore n = λ i h. before i (omega (arith, h)) in
        after_all-Trail hash Allowed (meanwhile n) _
          (attempt-Trail n earlier (app_at-Trail n earlier)) (others_fresh n before)
          (others_allowed n)

    pub book_with_retry-Trail :
        Trail hash Allowed a (book_with_retry hash r meanwhile uniform seat_id requester a).1
    book_with_retry-Trail =
        let (n, (below, before, ends, how)) =
          book_with_retry_lem hash r meanwhile uniform seat_id requester a in
        rw ends (attempt-Trail n before (app_at-Trail n before))

  -- Any call is allowed.
  everything : (calls : List Call) → All (λ c. Unit {0}) calls
  everything [] = tt
  everything (c ∷ calls) = (tt, everything calls)

  -- A booking with retries, with the calls of other threads between its attempts, leads to an app
  -- that single calls lead to, so that what holds of these holds of it. In each attempt that is
  -- made the booking gets a fresh id, and so do the calls between two attempts.
  pub book_with_retry-Reach :
      Reach hash a
      → HasFresh
      → OthersHaveFresh
      → Reach hash (book_with_retry hash r meanwhile uniform seat_id requester a).1
  book_with_retry-Reach reached fresh others_fresh = Trail-Reach reached (
      book_with_retry-Trail (λ c. Unit {0}) fresh others_fresh (λ n. tt)
        (λ n. everything (meanwhile n)))
