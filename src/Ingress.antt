-- ===== src/Ingress.antt =====
-- ingress/http_gateway.py: the proxy between HTTP and the booking service. What it takes from
-- Python's library is an argument: `loads` and `dumps` of json, `int`, `rfile.read` with the decoding,
-- and the header that urllib sets. A JSON object is a dict of the values that the proxy and its
-- handler exchange. A call that raises gives the message of its exception.
pub mod Delivery
mod Tests
use distributed_tickit_syste.Common.{
  ℕ, ◌≡◌, ◌⊎◌, inl, inr, String, Bool, true, false, not, ◌&&◌, Option, none, some, List, [], ◌∷◌,
  ite, leb, if◌then◌else◌, ℕ_discrete, string_key, string_same, Key,
}
use distributed_tickit_syste.Common.Dict.{Dict, lookup}

pub data Value : Type 0 where
  bool : Bool → Value
  number : ℕ → Value
  string : String → Value

abbrev pub Payload : Type 0
Payload = Dict String Value

-- What a call of Python gives: a value, or the message of what it raises.
abbrev pub Raising : Type 0 → Type 0
Raising A = A ⊎ String

pub record Library : Type 0 where
  pub loads : String → Raising Payload
  pub dumps : Payload → String
  pub int : String → Raising ℕ
  -- `rfile.read(length).decode("utf-8")` of a body
  pub read : ℕ → String → Raising String
  -- the header `Content-Length` that urllib sets for a body
  pub length_header : String → String

pub record Request : Type 0 where
  pub path : String
  pub content_length : Option String
  pub body : String

pub record Response : Type 0 where
  pub status : ℕ
  pub body : String

-- `BookingIngressProxy`: `_server` and `_thread` are there or not together.
pub record BookingIngressProxy : Type 0 where
  pub request_handler : Payload → Raising Payload
  pub running : Bool

abbrev pub init : (Payload → Raising Payload) → BookingIngressProxy
init request_handler = record { request_handler = request_handler; running = false }

unfoldable pub start : BookingIngressProxy → BookingIngressProxy
start p = if p.running then p else record p { running = true }

unfoldable pub stop : BookingIngressProxy → BookingIngressProxy
stop p = if p.running then record p { running = false } else p

-- The truth of a value in Python, and of `result.get("ok")`.
abbrev pub is_true : Value → Bool
is_true (bool b) = b
is_true (number n) = not (ite (ℕ_discrete n 0) true false)
is_true (string t) = not (ite (string_same t "") true false)

abbrev pub is_ok : Payload → Bool
is_ok result = elim (lookup "ok" result) [ none ↦ false | some v ↦ is_true v ]

abbrev pub or_zero : Option String → String
or_zero none = "0"
or_zero (some length) = length

abbrev pub or_braces : String → String
or_braces body = ite (string_same body "") "{}" body

abbrev pub not_found : Payload
not_found = ("ok", bool false) ∷ ("error", string "not_found") ∷ []

abbrev pub ingress_error : String → Payload
ingress_error message =
    ("ok", bool false) ∷ ("error", string "ingress_error") ∷ ("message", string message) ∷ []

abbrev pub and_then : {A B : Type 0} → Raising A → (A → Raising B) → Raising B
and_then (inl x) f = f x
and_then (inr e) f = inr e

pub data Submitted : Type 0 where
  returned : Payload → Submitted
  -- `RuntimeError`, because the proxy is not running, or because it is not reached
  not_running not_reached : Submitted
  -- what `loads` raises
  raised : String → Submitted

abbrev pub booking_body : ℕ → String → Payload
booking_body seat_id requester = ("seat_id", number seat_id) ∷ ("requester", string requester) ∷ []

abbrev pub http_error : String → Payload
http_error message =
    ("ok", bool false) ∷ ("error", string "http_error") ∷ ("message", string message) ∷ []

module _ (lib : Library) where
  abbrev pub write_json : ℕ → Payload → Response
  write_json status payload = record { status = status; body = lib.dumps payload }

  -- The `try` of `do_POST`, up to the answer of the handler.
  abbrev pub handle : Request → BookingIngressProxy → Raising Payload
  handle request p = and_then (lib.int (or_zero request.content_length)) (λ length.
      and_then (lib.read length request.body)
        (λ body. and_then (lib.loads (or_braces body)) p.request_handler))

  -- The answer, or what the `except` writes.
  abbrev pub answer : Raising Payload → Response
  answer (inl result) = if is_ok result then write_json 200 result else write_json 409 result
  answer (inr message) = write_json 500 (ingress_error message)

  unfoldable pub do_post : Request → BookingIngressProxy → Response
  do_post request p =
      ite (string_same request.path "/book") (answer (handle request p)) (write_json 404 not_found)

  abbrev pub request_for : Payload → Request
  request_for payload =
      let body = lib.dumps payload in
      record { path = "/book"; content_length = some (lib.length_header body); body = body }

  -- urlopen raises `HTTPError` for a status of 400 or more; `shown` is `str` of it.
  abbrev pub receive : (shown : String) → Response → Submitted
  receive shown response =
      let payload = lib.loads response.body in
      if leb 400 response.status
      then elim payload [ inl p ↦ returned p | inr e ↦ returned (http_error shown) ]
      else elim payload [ inl p ↦ returned p | inr e ↦ raised e ]

  -- `reached` tells whether the request gets to the server, which is an `URLError` otherwise.
  unfoldable pub submit_booking :
      (reached : Bool) (shown : String) (seat_id : ℕ) (requester : String)
      → BookingIngressProxy
      → Submitted
  unfolding do_post
  submit_booking reached shown seat_id requester p =
      if p.running
      then (if reached
          then receive shown (do_post (request_for (booking_body seat_id requester)) p)
          else not_reached)
      else not_running
