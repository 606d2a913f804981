-- ===== src/Booking/Tests/Service.antt =====
-- Bookings with and without a server.
use distributed_tickit_syste.Common.{
  ◌≡◌, ◌≢◌, refl, sym, ◌∙◌, ap, String, arith, ite, string_same, nat_key, string_key, ℕ,
}
use distributed_tickit_syste.Balancer.Contract.{Contract}
use distributed_tickit_syste.Booking.App.{App, fails, not_retryable, no_server}
use distributed_tickit_syste.Booking.Book.{book_locked, begin_booking}
use distributed_tickit_syste.Booking.Methods.{ToggleReadings}
use distributed_tickit_syste.Booking.Routing
use distributed_tickit_syste.Booking.Choice.{IsValid, select-Contract}
use distributed_tickit_syste.Booking.Routed.{IsServed, book_locked-IsServed}
use distributed_tickit_syste.Booking.Trace.{Call, toggle, after}
use distributed_tickit_syste.Booking.Reach.{Reach, next}
use distributed_tickit_syste.Booking.Unserved.{AreNamed, AreDown, book_locked-AreDown}
use distributed_tickit_syste.Booking.Tests.{
  program, hash, new_app, new_reached, at_booking, booked_on,
}

select-Contract_example : Contract IsValid (λ metrics key s. Routing.select hash metrics key s)
select-Contract_example = select-Contract hash

book_locked-IsServed_example : IsServed at_booking new_app.servers "Server 1"
book_locked-IsServed_example =
    book_locked-IsServed hash at_booking 1 "ann" "Server 1" new_app booked_on

abbrev at_toggle : ToggleReadings
at_toggle = record {
  beat_at = 1500;
  healthy_at = 1500;
  recovered_at = 1500;
  rejoined_at = 1500;
  synced_at = 1501;
}

abbrev off : String → Call
off sid = toggle at_toggle sid

-- All three servers have been switched off.
abbrev one_off : App
one_off = after hash (off "Server 1") new_app

abbrev two_off : App
two_off = after hash (off "Server 2") one_off

abbrev all_off : App
all_off = after hash (off "Server 3") two_off

all_off_reached : Reach hash all_off
all_off_reached =
    next (off "Server 3") (next (off "Server 2") (next (off "Server 1") new_reached tt) tt) tt

has_name : String → ℕ
has_name x = ite (string_same x "") 0 1

named_apart : (sid : String) → has_name sid ≡ 1 → sid ≢ ""
unfolding has_name string_same
named_apart sid here e =
    let apart : 1 ≡ 0 = sym here ∙ ap has_name e in absurd (omega (arith, apart))

all_off_named : AreNamed all_off.servers
unfolding program has_name distributed_tickit_syste.Booking.Methods.toggle_server
all_off_named =
    (named_apart "Server 1" refl, (named_apart "Server 2" refl, (named_apart "Server 3" refl, tt)))

all_off_unserved : (book_locked hash at_booking 1 "ann" all_off).0 ≡ fails (not_retryable no_server)
unfolding program distributed_tickit_syste.Booking.Methods.toggle_server
all_off_unserved = refl

book_locked-AreDown_example : AreDown at_booking (begin_booking at_booking all_off).1
book_locked-AreDown_example =
    book_locked-AreDown hash at_booking 1 "ann" all_off all_off_reached all_off_named
      all_off_unserved
