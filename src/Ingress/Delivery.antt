-- ===== src/Ingress/Delivery.antt =====
-- A booking through HTTP gives what the handler gives.
use distributed_tickit_syste.Common.{
  ℕ, ◌≡◌, refl, ◌∙◌, ap, inl, inr, String, true, string_same, Bool-cases,
}
use distributed_tickit_syste.Ingress.{
  Payload, Raising, Library, BookingIngressProxy, start, is_ok, or_braces, ingress_error, and_then,
  handle, answer, do_post, returned, booking_body, request_for, receive, submit_booking,
}

-- What is documented of Python's library, for one object: json reads back what it writes, which is
-- not empty, and the header that urllib sets is the number of bytes that are to be read.
pub record IsFaithful (lib : Library) (p : Payload) : Type 0 where
  pub reads_back : lib.loads (lib.dumps p) ≡ inl p
  pub not_empty : or_braces (lib.dumps p) ≡ lib.dumps p
  pub reads_all :
      (n : ℕ) × (lib.int (lib.length_header (lib.dumps p)) ≡ inl n)
      × (lib.read n (lib.dumps p) ≡ inl (lib.dumps p))

-- What the client is given for the answer of the handler.
abbrev pub or_ingress_error : Raising Payload → Payload
or_ingress_error (inl result) = result
or_ingress_error (inr message) = ingress_error message

module _ (lib : Library) where
  handle_lem :
      (payload : Payload) (p : BookingIngressProxy)
      → IsFaithful lib payload
      → handle lib (request_for lib payload) p ≡ p.request_handler payload
  handle_lem payload p f =
      let (n, is_length, all) = f.reads_all in
      rw (is_length, and_then, all, f.not_empty, f.reads_back) refl

  receive-answer :
      (shown : String) (result : Raising Payload)
      → IsFaithful lib (or_ingress_error result)
      → receive lib shown (answer lib result) ≡ returned (or_ingress_error result)
  receive-answer shown (inl result) f = elim (Bool-cases (is_ok result)) [
    | inl e ↦ rw (e, answer, f.reads_back) refl
    | inr e ↦ rw (e, answer, f.reads_back) refl
  ]
  receive-answer shown (inr message) f = rw (f.reads_back) refl

  through :
      (shown : String) (payload : Payload) (p : BookingIngressProxy)
      → IsFaithful lib payload
      → IsFaithful lib (or_ingress_error (p.request_handler payload))
      → receive lib shown (do_post lib (request_for lib payload) p)
        ≡ returned (or_ingress_error (p.request_handler payload))
  unfolding do_post string_same
  through shown payload p f g =
      ap (λ r. receive lib shown (answer lib r)) (handle_lem payload p f)
      ∙ receive-answer shown (p.request_handler payload) g

  -- Once the proxy has been started, a booking that is submitted through HTTP and reaches the server
  -- returns what the handler returns for the seat and the requester, whatever it is, and the error
  -- `ingress_error` with the message if the handler raises. The library keeps what it promises for
  -- the two objects that are sent.
  pub submit_booking_lem :
      (shown : String) (seat_id : ℕ) (requester : String) (p : BookingIngressProxy)
      → IsFaithful lib (booking_body seat_id requester)
      → IsFaithful lib (or_ingress_error (p.request_handler (booking_body seat_id requester)))
      → submit_booking lib true shown seat_id requester (start p)
        ≡ returned (or_ingress_error (p.request_handler (booking_body seat_id requester)))
  unfolding submit_booking start
  submit_booking_lem shown seat_id requester p f g = elim (Bool-cases p.running) [
    | inl e ↦ rw (e, submit_booking) (through shown (booking_body seat_id requester) p f g)
    | inr e ↦
        rw (e, submit_booking)
          (through shown (booking_body seat_id requester) (record p { running = true }) f g)
  ]
