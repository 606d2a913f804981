-- ===== src/Booking/Api.antt =====
-- dashboard.py: the functions behind the routes. Flask, which finds the function for a request and
-- turns its answer into JSON, is not part of the repository: a request stands here with the values
-- that Flask hands over, and `none` where the payload has no such key.
use distributed_tickit_syste.Common.{ℕ, String, Option, none, some, List, [], ◌∷◌, All}
use distributed_tickit_syste.Booking.Desk.{Seat}
use distributed_tickit_syste.Booking.Desk
use distributed_tickit_syste.Booking.App.{App}
use distributed_tickit_syste.Booking.App
use distributed_tickit_syste.Booking.Book.{BookReadings}
use distributed_tickit_syste.Booking.Methods
use distributed_tickit_syste.Booking.Methods.{ToggleReadings}
use distributed_tickit_syste.Booking.Snapshot.{SnapshotReadings, snapshot}
use distributed_tickit_syste.Booking.Trace
use distributed_tickit_syste.Booking.Trace.{Call, after}
use distributed_tickit_syste.Booking.Reach.{Reach, Reach-IsSound, IsNotReset}
use distributed_tickit_syste.Booking.Soundness.{IsSound}
use distributed_tickit_syste.Booking.Kept.{IsReserved}
use distributed_tickit_syste.Booking.Retrying.{Answer, book_with_retry}
use distributed_tickit_syste.Booking.Threads.{
  Trail, here, step, Trail-trans, Trail-Reach, Trail-IsReserved, HasFresh, OthersHaveFresh,
  book_with_retry-Trail,
}
use distributed_tickit_syste.Booking.Simulation.{Simulation, simulate_retry, simulate_retry_lem}

-- What a booking with retries reads, attempt by attempt, and what other threads call in between.
pub record RetryReadings : Type 0 where
  pub readings : ℕ → BookReadings
  pub meanwhile : ℕ → List Call
  pub uniform : ℕ → ℕ → ℕ → ℕ

-- A request, with what the method behind it reads.
pub data Request : Type 0 where
  api_state : SnapshotReadings → Request
  api_strategy : (strategy : Option String) → Request
  api_toggle_server : ToggleReadings → (server_id : String) → Request
  api_book_seat : RetryReadings → (seat_id : ℕ) → (requester : Option String) → Request
  api_confirm_seat : (now : ℕ) (stamp : String) (delays : String → ℕ) (seat_id : ℕ) → Request
  api_cancel_lock : (seat_id : ℕ) → Request
  api_renew_lease : (now later asked seat_id : ℕ) → Request
  api_retry : (uniform : ℕ → ℕ → ℕ → ℕ) → Request
  api_reset : (String → ℕ → String) → Request

-- What a route answers; `raises` is an exception of the method, for which Flask answers.
pub data Response : Type 0 where
  viewed : Response
  plain_ok : Response
  booking : Answer → Response
  confirmation : Desk.Reply Seat → Response
  cancellation : Desk.Reply (Unit {0}) → Response
  renewal : Desk.Reply ℕ → Response
  simulation : Simulation → Response
  raises : App.BookingError → Response

-- `payload.get(key, default)`
abbrev pub given_or : String → Option String → String
given_or default none = default
given_or default (some text) = text

abbrev pub view_of : App.Reply (Unit {0}) → Response
view_of (App.done u) = viewed
view_of (App.fails e) = raises e

unfoldable pub respond : (hash : String → ℕ) → Request → App → Response × App
unfolding book_with_retry simulate_retry
respond hash (api_state r) a = let (reply, a') = snapshot r a in (view_of reply, a')
respond hash (api_strategy strategy) a =
    (plain_ok, Methods.set_strategy (given_or "Round Robin" strategy) a)
respond hash (api_toggle_server r server_id) a = (plain_ok, Methods.toggle_server r server_id a)
respond hash (api_book_seat r seat_id requester) a =
    let (answer, a') =
      book_with_retry hash r.readings r.meanwhile r.uniform seat_id (given_or "Web User" requester)
        a in
    (booking answer, a')
respond hash (api_confirm_seat now stamp delays seat_id) a =
    let (reply, a') = Methods.confirm_seat now stamp delays seat_id a in (confirmation reply, a')
respond hash (api_cancel_lock seat_id) a =
    let (reply, a') = Methods.cancel_lock seat_id a in (cancellation reply, a')
respond hash (api_renew_lease now later asked seat_id) a =
    let (reply, a') = Methods.renew_lease now later asked seat_id a in (renewal reply, a')
respond hash (api_retry uniform) a =
    let (outcome, a') = simulate_retry uniform a in (simulation outcome, a')
respond hash (api_reset stamps) a = (plain_ok, Methods.reset stamps a)

-- `uuid.uuid4()` gives fresh ids to the bookings of a request.
abbrev pub IsFreshRequest : (hash : String → ℕ) → Request → App → Type 0
IsFreshRequest hash (api_book_seat r seat_id requester) a =
    let who = given_or "Web User" requester in
    HasFresh hash r.readings r.meanwhile r.uniform seat_id who a
    × OthersHaveFresh hash r.readings r.meanwhile r.uniform seat_id who a
IsFreshRequest hash _ a = Unit

-- The calls behind a request are of a kind.
abbrev pub IsOf : (Call → Type 0) → Request → Type 0
IsOf Allowed (api_state r) = Allowed (Trace.snapshot r)
IsOf Allowed (api_strategy strategy) =
    Allowed (Trace.set_strategy (given_or "Round Robin" strategy))
IsOf Allowed (api_toggle_server r sid) = Allowed (Trace.toggle r sid)
IsOf Allowed (api_book_seat r k requester) =
    ((n : ℕ) → Allowed (Trace.book (r.readings n) k (given_or "Web User" requester)))
    × ((n : ℕ) → All Allowed (r.meanwhile n))
IsOf Allowed (api_confirm_seat now stamp delays k) = Allowed (Trace.confirm now stamp delays k)
IsOf Allowed (api_cancel_lock k) = Allowed (Trace.cancel k)
IsOf Allowed (api_renew_lease now later asked k) = Allowed (Trace.renew now later asked k)
IsOf Allowed (api_retry uniform) = Unit
IsOf Allowed (api_reset stamps) = Allowed (Trace.reset stamps)

respond-Trail :
    (hash : String → ℕ) (Allowed : Call → Type 0) (request : Request) (a : App)
    → IsFreshRequest hash request a
    → IsOf Allowed request
    → Trail hash Allowed a (respond hash request a).1
unfolding respond after
respond-Trail hash Allowed (api_state r) a _ ok = step (Trace.snapshot r) here tt ok
respond-Trail hash Allowed (api_strategy strategy) a _ ok =
    step (Trace.set_strategy (given_or "Round Robin" strategy)) here tt ok
respond-Trail hash Allowed (api_toggle_server r sid) a _ ok = step (Trace.toggle r sid) here tt ok
respond-Trail hash Allowed (api_book_seat r k requester) a (fresh, others) (ok, others_ok) =
    book_with_retry-Trail hash r.readings r.meanwhile r.uniform k (given_or "Web User" requester) a
      Allowed fresh others ok others_ok
respond-Trail hash Allowed (api_confirm_seat now stamp delays k) a _ ok =
    step (Trace.confirm now stamp delays k) here tt ok
respond-Trail hash Allowed (api_cancel_lock k) a _ ok = step (Trace.cancel k) here tt ok
respond-Trail hash Allowed (api_renew_lease now later asked k) a _ ok =
    step (Trace.renew now later asked k) here tt ok
respond-Trail hash Allowed (api_retry uniform) a _ ok = rw (simulate_retry_lem uniform a) here
respond-Trail hash Allowed (api_reset stamps) a _ ok = step (Trace.reset stamps) here tt ok

-- The requests one after another.
unfoldable pub serve : (hash : String → ℕ) → List Request → App → List Response × App
unfolding respond
serve hash [] a = ([], a)
serve hash (request ∷ requests) a =
    let (response, a') = respond hash request a in
    let (responses, a'') = serve hash requests a' in (response ∷ responses, a'')

abbrev pub AreFreshRequests : (hash : String → ℕ) → List Request → App → Type 0
AreFreshRequests hash [] a = Unit
AreFreshRequests hash (request ∷ requests) a =
    IsFreshRequest hash request a × AreFreshRequests hash requests (respond hash request a).1

serve-Trail :
    (hash : String → ℕ) (Allowed : Call → Type 0) (requests : List Request) (a : App)
    → AreFreshRequests hash requests a
    → All (IsOf Allowed) requests
    → Trail hash Allowed a (serve hash requests a).1
unfolding serve
serve-Trail hash Allowed [] a fresh ok = here
serve-Trail hash Allowed (request ∷ requests) a (first, rest) (this, those) =
    Trail-trans (respond-Trail hash Allowed request a first this)
      (serve-Trail hash Allowed requests (respond hash request a).1 rest those)

-- Whatever requests the routes get, the app stays one that calls of its methods lead to, so that the
-- invariants of these hold of it, the soundness of its seats and leases among them. In each attempt
-- of a booking the id of the lease is fresh, and so are those of the calls of other threads between
-- two attempts.
pub serve-IsSound :
    (hash : String → ℕ) (requests : List Request) (a : App)
    → Reach hash a
    → AreFreshRequests hash requests a
    → Reach hash (serve hash requests a).1 × IsSound (serve hash requests a).1.desk
serve-IsSound hash requests a reached fresh =
    let after_all =
      Trail-Reach reached (serve-Trail hash (λ c. Unit {0}) requests a fresh (any requests)) in
    (after_all, Reach-IsSound after_all)
  where
    any_call : (calls : List Call) → All (λ c. Unit {0}) calls
    any_call [] = tt
    any_call (c ∷ calls) = (tt, any_call calls)

    any_request : (request : Request) → IsOf (λ c. Unit {0}) request
    any_request (api_book_seat r k requester) = (λ n. tt, λ n. any_call (r.meanwhile n))
    any_request (api_state r) = tt
    any_request (api_strategy strategy) = tt
    any_request (api_toggle_server r sid) = tt
    any_request (api_confirm_seat now stamp delays k) = tt
    any_request (api_cancel_lock k) = tt
    any_request (api_renew_lease now later asked k) = tt
    any_request (api_retry uniform) = tt
    any_request (api_reset stamps) = tt

    any : (requests : List Request) → All (IsOf (λ c. Unit {0})) requests
    any [] = tt
    any (request ∷ requests) = (any_request request, any requests)

-- No seat is sold twice: once a seat is confirmed, no sequence of requests for any seat, with
-- whatever is called between the attempts of their bookings, takes it from its owner, unless one of
-- them resets the app. The ids of new leases are fresh.
pub serve-IsReserved :
    (hash : String → ℕ) (requests : List Request) (a : App) (k : ℕ) (seat : Seat)
    → Reach hash a
    → AreFreshRequests hash requests a
    → All (IsOf IsNotReset) requests
    → IsReserved k seat a.desk
    → IsReserved k seat (serve hash requests a).1.desk
serve-IsReserved hash requests a k seat reached fresh spared held =
    Trail-IsReserved k seat reached (serve-Trail hash IsNotReset requests a fresh spared) held
