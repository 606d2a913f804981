-- ===== src/Booking/Tests.antt =====
-- Bookings at concrete inputs.
mod Service
mod Requests
use distributed_tickit_syste.Common.{
  ℕ, ◌≡◌, refl, String, Bool, true, false, Option, none, some, List, [], ◌∷◌, nat_key, string_key,
  zero, suc, arith, string_same,
}
use distributed_tickit_syste.Common.Dict.{lookup, keys}
use distributed_tickit_syste.Locking.{Lease}
use distributed_tickit_syste.Circuit.Breaker.{Readings}
use distributed_tickit_syste.Booking.Desk.{
  Seat, locked, reserved, lease_expired, expire_leases_locked,
}
use distributed_tickit_syste.Booking.Desk
use distributed_tickit_syste.Booking.Soundness.{IsSound}
use distributed_tickit_syste.Booking.App.{App, Reply, done, MetricReadings, Server}
use distributed_tickit_syste.Booking.Book.{BookReadings, book_locked}
use distributed_tickit_syste.Booking.AllOrNothing.{SeatsAfter, book_locked-seats}
use distributed_tickit_syste.Booking.Methods.{ToggleReadings}
use distributed_tickit_syste.Booking.Init
use distributed_tickit_syste.Booking.Init.{InitReadings, init}
use distributed_tickit_syste.Booking.Kept.{IsReserved}
use distributed_tickit_syste.Booking.Stranded.{IsStranded}
use distributed_tickit_syste.Booking.Stranding.{confirm_seat-expired}
use distributed_tickit_syste.Booking.Trace.{Call, book, confirm, cancel, snapshot, after, IsFresh}
use distributed_tickit_syste.Booking.Reach.{
  Reach, start, next, Reach-IsSound, after-IsReserved, after-IsStranded,
}
use distributed_tickit_syste.Booking.Retrying.{app_at, book_with_retry, FailsFor}
use distributed_tickit_syste.Booking.Attempts.{StopsAt, book_with_retry_lem}
use distributed_tickit_syste.Booking.Threads.{FailsBefore, book_with_retry-Reach}
use distributed_tickit_syste.Common.Int.{pos, negsuc}
use distributed_tickit_syste.Booking.Snapshot.{Draws, SnapshotReadings, refresh_server_metrics}
use distributed_tickit_syste.Booking.Return.{expired_seat_returns}
use distributed_tickit_syste.Booking.Walk.{IsBounded, refresh_server_metrics_lem}

program : Unit {0}
unfolding distributed_tickit_syste.Booking.Desk.expire_leases_locked
    distributed_tickit_syste.Booking.Desk.lease_seat
    distributed_tickit_syste.Booking.Desk.confirm_seat
    distributed_tickit_syste.Booking.App.current_metrics
    distributed_tickit_syste.Booking.Book.book_locked
    distributed_tickit_syste.Booking.Methods.confirm_seat distributed_tickit_syste.Booking.Init.init
    distributed_tickit_syste.Booking.Trace.after distributed_tickit_syste.Booking.Routing.select
    distributed_tickit_syste.Locking.drop_lease distributed_tickit_syste.Locking.expired_at
    distributed_tickit_syste.Locking.expire_locked distributed_tickit_syste.Locking.acquire
    distributed_tickit_syste.Locking.validate distributed_tickit_syste.Locking.expire_leases
    distributed_tickit_syste.Common.Dict.lookup distributed_tickit_syste.Common.Dict.insert
    distributed_tickit_syste.Common.Dict.erase distributed_tickit_syste.Common.Dict.values
    distributed_tickit_syste.Circuit.Breaker.get_state
    distributed_tickit_syste.Circuit.Breaker.allow_request
    distributed_tickit_syste.Circuit.Breaker.failure_percentage
    distributed_tickit_syste.Circuit.Breaker.call
    distributed_tickit_syste.Circuit.StateMachine.read_state
    distributed_tickit_syste.Circuit.StateMachine.allow_request
    distributed_tickit_syste.Balancer.RoundRobin.select_server
    distributed_tickit_syste.Sync.StateStore.update_seat distributed_tickit_syste.Common.ℕ_discrete
    distributed_tickit_syste.Common.string_same
program = tt

abbrev hash : String → ℕ
hash s = 0

abbrev at_start : InitReadings
at_start = record {
  cpu = λ s. 20;
  connections = λ s. 2;
  response_time = λ s. 90;
  beat_at = λ s. 1000;
  healthy_at = λ s. 1000;
  stamps = λ s k. "t0";
}

abbrev new_app : App
new_app = init at_start

abbrev at_call : Readings
at_call = record { recorded = 2000; first = 2000; second = 2000; counted = 2000; forced = 2000 }

abbrev at_booking : BookReadings
at_booking = record {
  started_at = 2000;
  expired_at = 2000;
  metrics = record { beat_at = λ s. 2000; state_at = λ s. 2000; rate_at = λ s. 2000 };
  allowed_at = 2000;
  target_allowed_at = 2000;
  call_at = 2000;
  call_after = at_call;
  offline_failure = at_call;
  draw_fails = false;
  uuid = "u1";
  lease_now = 2000;
  lease_later = 2000;
  stamp = "t1";
  delays = λ s. 200;
  routed_at = 2000;
}

abbrev book_seat : Call
book_seat = book at_booking 1 "ann"

abbrev booked_app : App
booked_app = after hash book_seat new_app

-- The booking goes through, on the first server of the rotation.
booked_on : (book_locked hash at_booking 1 "ann" new_app).0 ≡ done "Server 1"
unfolding program
booked_on = refl

abbrev new_reached : Reach hash new_app
new_reached = start at_start

book_seat-IsFresh : IsFresh book_seat new_app
unfolding program
book_seat-IsFresh = (refl, refl)

booked_reached : Reach hash booked_app
booked_reached = next book_seat new_reached book_seat-IsFresh

abbrev lease : Lease
lease = record {
  lease_id = "u1";
  seat_id = 1;
  holder = "Server 1";
  owner = "ann";
  expires_at = 32000;
}

abbrev locked_seat : Seat
locked_seat = record {
  state = locked;
  owner = "ann";
  lease_id = "u1";
  expires_at = 32000;
  server = "Server 1";
}

booked_seat :
    (lookup 1 booked_app.desk.seats ≡ some locked_seat)
    × (lookup 1 booked_app.desk.lease_manager.leases_by_seat ≡ some lease)
unfolding program
booked_seat = (refl, refl)

abbrev confirm_at : ℕ → Call
confirm_at now = confirm now "t2" (λ s. 200) 1

abbrev sold_app : App
sold_app = after hash (confirm_at 3000) booked_app

sold_seat : IsReserved 1 (Desk.confirmed locked_seat) sold_app.desk
unfolding program
sold_seat = (refl, refl)

-- Confirmed after the lease is over.
abbrev late_app : App
late_app = after hash (confirm_at 40000) booked_app

late_seat : IsStranded 1 late_app.desk
unfolding program
late_seat = ((locked_seat, refl, refl), refl)

book_locked-seats_example :
    SeatsAfter at_booking 1 "ann"
      (expire_leases_locked 2000 new_app.desk)
      (book_locked hash at_booking 1 "ann" new_app)
book_locked-seats_example = book_locked-seats hash at_booking 1 "ann" new_app

Reach-IsSound_example : IsSound booked_app.desk
Reach-IsSound_example = Reach-IsSound booked_reached

after-IsReserved_example :
    IsReserved 1 (Desk.confirmed locked_seat) (after hash (cancel 1) sold_app).desk
after-IsReserved_example =
    after-IsReserved (cancel 1) 1 (Desk.confirmed locked_seat)
      (next (confirm_at 3000) booked_reached tt) tt sold_seat

abbrev no_draws : Draws
no_draws = record { cpu = pos 0; connections = pos 0; response_time = pos 0 }

abbrev much_later : SnapshotReadings
much_later = record {
  expired_at = 90000;
  draws = λ s. no_draws;
  metrics = record { beat_at = λ s. 90000; state_at = λ s. 90000; rate_at = λ s. 90000 };
  now = 90000;
  health_at = 90000;
  state_at = λ s. 90000;
  rate_at = λ s. 90000;
}

after-IsStranded_example : IsStranded 1 (after hash (snapshot much_later) late_app).desk
after-IsStranded_example =
    after-IsStranded (snapshot much_later) 1 (next (confirm_at 40000) booked_reached tt) tt
      late_seat

confirm_seat-expired_example :
    ((Desk.confirm_seat 40000 1 booked_app.desk).0 ≡ lease_expired)
    × IsStranded 1 (Desk.confirm_seat 40000 1 booked_app.desk).1
confirm_seat-expired_example =
    confirm_seat-expired booked_app.desk (Reach-IsSound booked_reached) 1 40000 locked_seat lease
      booked_seat.0 refl booked_seat.1 refl

abbrev readings : ℕ → BookReadings
readings n = at_booking

-- Nothing else is called.
abbrev quiet : ℕ → List Call
quiet n = []

abbrev no_draw : ℕ → ℕ → ℕ → ℕ
no_draw n low high = low

book_with_retry_lem_example : (n : ℕ) × StopsAt hash readings quiet no_draw 1 "ann" new_app n
book_with_retry_lem_example = book_with_retry_lem hash readings quiet no_draw 1 "ann" new_app

first_is_last :
    (n : ℕ)
    → FailsBefore hash readings quiet no_draw 1 "ann" new_app n
    → IsFresh (book (readings n) 1 "ann") (app_at hash readings quiet no_draw 1 "ann" new_app n)
unfolding program app_at
first_is_last zero before = book_seat-IsFresh
first_is_last (suc n) before = absurd (no_failure (before 0 (omega arith)))
  where
    no_failure : FailsFor hash readings quiet no_draw 1 "ann" new_app 0 → ⊥
    no_failure (e, failed, may_pass) = let worked = booked_on in absurd (cc)

-- A load of 93 goes up by 6, which is too much.
abbrev busy : Server
busy = record { online = true; cpu = 93; connections = 2; response_time = 90; requests = 0 }

abbrev up_by_6 : String → Draws
up_by_6 s = record { cpu = pos 6; connections = negsuc 0; response_time = negsuc 14 }

refresh_server_metrics_lem_example :
    ((after : Server) × (lookup "A" (refresh_server_metrics up_by_6 (("A", busy) ∷ []))
        ≡ some after)
      × (true ≡ true → IsBounded after)
      × (true ≡ false → after ≡ busy))
    × (keys (refresh_server_metrics up_by_6 (("A", busy) ∷ [])) ≡ keys (("A", busy) ∷ []))
unfolding lookup string_same
refresh_server_metrics_lem_example =
    refresh_server_metrics_lem up_by_6 "A" (("A", busy) ∷ []) busy refl

expired_seat_returns_example :
    (lookup 1 (after hash (snapshot much_later) booked_app).desk.seats ≡ some Desk.free_seat)
    × (lookup 1 (after hash (snapshot much_later) booked_app).desk.lease_manager.leases_by_seat
        ≡ none)
expired_seat_returns_example =
    expired_seat_returns much_later 1 lease booked_reached booked_seat.1 refl
