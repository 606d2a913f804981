-- ===== src/Ingress/Tests.antt =====
-- A booking through HTTP at concrete inputs.
use distributed_tickit_syste.Common.{
  ◌≡◌, refl, inl, true, false, none, some, [], ◌∷◌, ite, string_same, string_key,
}
use distributed_tickit_syste.Common.Dict.{lookup}
use distributed_tickit_syste.Ingress.{
  Payload, bool, Library, BookingIngressProxy, init, start, booking_body, returned, submit_booking,
}
use distributed_tickit_syste.Ingress.Delivery.{IsFaithful, submit_booking_lem}

-- The handler refuses every booking.
abbrev refusal : Payload
refusal = ("ok", bool false) ∷ []

abbrev proxy : BookingIngressProxy
proxy = init (λ payload. inl refusal)

-- The library, as far as the two objects need it.
abbrev two_objects : Library
two_objects = record {
  loads = λ text. ite (string_same text "ask") (inl (booking_body 7 "ann")) (inl refusal);
  dumps = λ payload. elim (lookup "seat_id" payload) [ none ↦ "answer" | some v ↦ "ask" ];
  int = λ text. inl 3;
  read = λ length text. inl text;
  length_header = λ text. "3";
}

asked : IsFaithful two_objects (booking_body 7 "ann")
unfolding lookup string_same
asked = record { reads_back = refl; not_empty = refl; reads_all = (3, refl, refl) }

answered : IsFaithful two_objects refusal
unfolding lookup string_same
answered = record { reads_back = refl; not_empty = refl; reads_all = (3, refl, refl) }

submit_booking_lem_example :
    submit_booking two_objects true "HTTP Error 409" 7 "ann" (start proxy) ≡ returned refusal
submit_booking_lem_example =
    submit_booking_lem two_objects "HTTP Error 409" 7 "ann" proxy asked answered
