-- ===== src/Http/Receive.antt =====
-- The body that recvRequest of src/http/http_session.cpp hands on.
use cool.Base.{
  ℕ, ◌≤◌, ◌<◌, ◌≡◌, refl, ap, ◌∙◌, Bool, true, false, List, [], ◌∷◌, ◌++◌, Option, ltb, arith, take,
  length, replicate,
}
use cool.Base.Text.{Text}
use cool.Http.Message.{HttpRequest}
use cool.Http.Parser.{Machine, RequestCall, HttpRequestParser, new_parser, content_length}
use cool.Http.Session.{
  Read, got, failed, Received, received, closed, waiting, fault, receive, overrun, take_body,
  recv_request, is_positive,
}

abbrev pub is_received : {A : Type 0} → Received A → Bool
is_received (received a) = true
is_received closed = false
is_received waiting = false
is_received fault = false

overrun_lem : (reads : List Read) → is_received (overrun reads) ≡ false
unfolding overrun
overrun_lem [] = refl
overrun_lem (got [] ∷ reads) = refl
overrun_lem (got (c ∷ bytes) ∷ reads) = refl
overrun_lem (failed ∷ reads) = refl

short_lem :
    (n : ℕ) (kept : Text) (reads : List Read) (r : HttpRequest)
    → is_positive n ≡ true
    → length kept < n
    → is_received (take_body n kept reads r) ≡ false
unfolding take_body
short_lem n kept reads r p l =
    let e : ltb (length kept) n ≡ true = ground arith in rw (take_body, p, e) (overrun_lem reads)

whole_lem :
    (n : ℕ) (kept : Text) (reads : List Read) (r : HttpRequest)
    → is_positive n ≡ true
    → n ≤ length kept
    → take_body n kept reads r ≡ received (record r { body = replicate n 0 ++ take n kept })
unfolding take_body
whole_lem n kept reads r p l =
    let e : ltb (length kept) n ≡ false = ground arith in rw (take_body, p, e) refl

-- When the parser has finished and the content length is positive as an int64_t, the body of the
-- request is as many NUL bytes followed by the bytes that were sent, if all of them are in the buffer.
-- If they are not, recvRequest hands no request on, whatever is read after.
pub recv_request_body :
    {M : Type 0} (m : Machine M RequestCall) (cast : Text → Option ℕ) (buf_size n : ℕ)
    (reads rest : List Read) (kept : Text) (p : HttpRequestParser M)
    → receive m buf_size [] (new_parser m) reads ≡ received (kept, p, rest)
    → content_length cast p ≡ n
    → is_positive n ≡ true
    → (n ≤ length kept
        → recv_request m cast buf_size reads
          ≡ received (record p.data_ { body = replicate n 0 ++ take n kept }))
      × (length kept < n → is_received (recv_request m cast buf_size reads) ≡ false)
unfolding recv_request
recv_request_body m cast buf_size n reads rest kept p h c i =
    let e : recv_request m cast buf_size reads ≡ take_body n kept rest p.data_ =
      rw (recv_request, h, c) refl in
    (
      (λ l. e ∙ whole_lem n kept rest p.data_ i l),
      λ l. ap is_received e ∙ short_lem n kept rest p.data_ i l,
    )
