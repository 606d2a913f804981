-- ===== src/Booking/Tests/Requests.antt =====
-- Requests to the routes at concrete inputs, and what the view shows after a booking.
use distributed_tickit_syste.Common.{some, none, List, [], ◌∷◌, nat_key, string_key}
use distributed_tickit_syste.Booking.Desk
use distributed_tickit_syste.Booking.Soundness.{IsSound}
use distributed_tickit_syste.Booking.Kept.{IsReserved}
use distributed_tickit_syste.Booking.Reach.{Reach, next}
use distributed_tickit_syste.Booking.Api.{
  Request, RetryReadings, api_book_seat, api_confirm_seat, api_cancel_lock, api_retry, api_strategy,
  api_renew_lease, api_state, serve, serve-IsSound, serve-IsReserved,
}
use distributed_tickit_syste.Booking.Tests.{
  hash, new_app, new_reached, booked_reached, readings, quiet, no_draw, confirm_at, sold_app,
  much_later, sold_seat, locked_seat, first_is_last,
}

abbrev at_retry : RetryReadings
at_retry = record { readings = readings; meanwhile = quiet; uniform = no_draw }

abbrev sale : List Request
sale =
    api_book_seat at_retry 1 (some "ann")
    ∷ api_retry no_draw
    ∷ api_strategy none
    ∷ api_confirm_seat 3000 "t2" (λ s. 200) 1
    ∷ []

serve-IsSound_example :
    Reach hash (serve hash sale new_app).1 × IsSound (serve hash sale new_app).1.desk
serve-IsSound_example =
    serve-IsSound hash sale new_app new_reached
      ((first_is_last, λ n before. tt), (tt, (tt, (tt, tt))))

sold_reached : Reach hash sold_app
sold_reached = next (confirm_at 3000) booked_reached tt

-- What others try with the seat that is sold.
abbrev later_requests : List Request
later_requests =
    api_cancel_lock 1
    ∷ api_confirm_seat 4000 "t3" (λ s. 200) 1
    ∷ api_renew_lease 4000 4000 4000 1
    ∷ api_strategy none
    ∷ api_state much_later
    ∷ []

serve-IsReserved_example :
    IsReserved 1 (Desk.confirmed locked_seat) (serve hash later_requests sold_app).1.desk
serve-IsReserved_example =
    serve-IsReserved hash later_requests sold_app 1 (Desk.confirmed locked_seat) sold_reached
      (tt, (tt, (tt, (tt, (tt, tt))))) (tt, (tt, (tt, (tt, (tt, tt))))) sold_seat
