-- ===== src/Http/Parser.antt =====
-- src/http/http_parser.h and src/http/http_parser.cpp: the callbacks that fill a message. The Ragel
-- machines are the parameter `Machine`. A callback gets the text from its pointer to the end of the
-- buffer, and a length.
use cool.Base.{
  ℕ, zero, suc, ◌+◌, ◌-◌, ◌*◌, ◌%◌, ◌^◌, Bool, true, not, ◌&&◌, ◌||◌, List, [], ◌∷◌, Option, none,
  some, leb, ◌==◌, if◌then◌else◌, take, drop,
}
use cool.Base.Text.{Text, codes}
use cool.Http.{chars_to_http_method, invalid_method, get_as}
use cool.Http.Message.{
  HttpRequest, new_request, set_header, HttpResponse, new_response, set_response_header,
}

-- strncmp(s, t, n) == 0 for C strings that end where the lists end.
unfoldable pub strncmp_eq : ℕ → Text → Text → Bool
strncmp_eq zero s t = true
strncmp_eq (suc n) [] [] = true
strncmp_eq (suc n) [] (d ∷ t) = d == 0
strncmp_eq (suc n) (c ∷ s) [] = c == 0
strncmp_eq (suc n) (c ∷ s) (d ∷ t) = c == d && (c == 0 || strncmp_eq n s t)

-- A generated parser: its state, a run over the buffer, with the bytes it took and the calls it made
-- in order, and its two questions.
pub record Machine (M Call : Type 0) : Type 0 where
  pub start : M
  pub run : M → Text → M × ℕ × List Call
  pub finish : M → Bool
  pub has_error : M → Bool

pub data RequestCall : Type 0 where
  request_method request_uri fragment request_path query_string http_version :
      Text → ℕ → RequestCall
  header_done : RequestCall
  http_field : Text → Text → RequestCall

pub record HttpRequestParser (M : Type 0) : Type 0 where
  pub error : ℕ
  pub data_ : HttpRequest
  pub machine : M

unfoldable pub version_of : Text → ℕ → Option ℕ
version_of at length =
    if strncmp_eq length at (codes "HTTP/1.1")
    then some 17
    else (if strncmp_eq length at (codes "HTTP/1.0") then some 16 else none)

-- The callbacks on m_error and m_data.
unfoldable pub on_request : RequestCall → ℕ × HttpRequest → ℕ × HttpRequest
on_request (request_method at length) (e, r) =
    let m = chars_to_http_method at in
    if m == invalid_method then (1000, r) else (e, record r { method = m })
on_request (request_uri at length) p = p
on_request (fragment at length) (e, r) = (e, record r { fragment = take length at })
on_request (request_path at length) (e, r) = (e, record r { path = take length at })
on_request (query_string at length) (e, r) = (e, record r { query = take length at })
on_request (http_version at length) (e, r) = elim (version_of at length) [
  | none ↦ (1001, r)
  | some v ↦ (e, record r { version = v })
]
on_request header_done p = p
on_request (http_field [] value) p = p
on_request (http_field (c ∷ field) value) (e, r) = (e, set_header r (c ∷ field) value)

unfoldable pub run_calls : List RequestCall → ℕ × HttpRequest → ℕ × HttpRequest
run_calls [] p = p
run_calls (c ∷ cs) p = run_calls cs (on_request c p)

-- HttpRequestParser(), whose request has the default version 1.1 and closes.
unfoldable pub new_parser : {M : Type 0} → Machine M RequestCall → HttpRequestParser M
new_parser m = record { error = 0; data_ = new_request 17 true; machine = m.start }

-- execute(data, len): the parser, and what memmove leaves at the front of the buffer.
unfoldable pub execute :
    {M : Type 0} → Machine M RequestCall → HttpRequestParser M → Text → HttpRequestParser M × Text
execute m p buffer =
    let (s, offset, calls) = m.run p.machine buffer in
    let r = run_calls calls (p.error, p.data_) in
    (record p { error = r.0; data_ = r.1; machine = s }, drop offset buffer)

unfoldable pub is_finished : {M : Type 0} → Machine M RequestCall → HttpRequestParser M → Bool
is_finished m p = m.finish p.machine

unfoldable pub has_error : {M : Type 0} → Machine M RequestCall → HttpRequestParser M → Bool
has_error m p = not (p.error == 0) || m.has_error p.machine

-- content_length(); boost::lexical_cast<uint64_t> is the argument `cast`.
unfoldable pub content_length : {M : Type 0} → (Text → Option ℕ) → HttpRequestParser M → ℕ
content_length cast p = get_as cast p.data_.headers (codes "content-length") 0

pub data ResponseCall : Type 0 where
  reason_phrase status_code chunk_size response_version : Text → ℕ → ResponseCall
  response_header_done last_chunk : ResponseCall
  response_field : Text → Text → ResponseCall

abbrev is_space : ℕ → Bool
is_space c = c == 32 || (leb 9 c && leb c 13)

abbrev is_digit : ℕ → Bool
is_digit c = leb b'0' c && leb c b'9'

unfoldable pub digits_value : ℕ → Text → ℕ
digits_value n [] = n
digits_value n (c ∷ s) =
    let rest = digits_value (n * 10 + (c - b'0')) s in if is_digit c then rest else n

-- atoi of a number that fits an int, as its 32 bits.
unfoldable pub atoi : Text → ℕ
atoi [] = 0
atoi (c ∷ s) =
    let rest = atoi s in
    if is_space c
    then rest
    else (if c == b'-'
        then (2 ^ 32 - digits_value 0 s) % 2 ^ 32
        else (if c == b'+' then digits_value 0 s else digits_value 0 (c ∷ s)))

unfoldable pub on_response : ResponseCall → ℕ × HttpResponse → ℕ × HttpResponse
on_response (reason_phrase at length) (e, r) = (e, record r { reason = take length at })
on_response (status_code at length) (e, r) = (e, record r { status = atoi at })
on_response (chunk_size at length) p = p
on_response (response_version at length) (e, r) = elim (version_of at length) [
  | none ↦ (1001, r)
  | some v ↦ (e, record r { version = v })
]
on_response response_header_done p = p
on_response last_chunk p = p
on_response (response_field [] value) (e, r) = (1002, r)
on_response (response_field (c ∷ field) value) (e, r) = (e, set_response_header r (c ∷ field) value)

pub record HttpResponseParser (M : Type 0) : Type 0 where
  pub error : ℕ
  pub data_ : HttpResponse
  pub machine : M

unfoldable pub run_response_calls : List ResponseCall → ℕ × HttpResponse → ℕ × HttpResponse
run_response_calls [] p = p
run_response_calls (c ∷ cs) p = run_response_calls cs (on_response c p)

-- HttpResponseParser().
unfoldable new_response_parser : {M : Type 0} → Machine M ResponseCall → HttpResponseParser M
new_response_parser m = record { error = 0; data_ = new_response 17 true; machine = m.start }

unfoldable execute_response :
    {M : Type 0}
    → Machine M ResponseCall
    → HttpResponseParser M
    → Text
    → HttpResponseParser M × Text
execute_response m p buffer =
    let (s, offset, calls) = m.run p.machine buffer in
    let r = run_response_calls calls (p.error, p.data_) in
    (record p { error = r.0; data_ = r.1; machine = s }, drop offset buffer)

unfoldable response_is_finished :
    {M : Type 0} → Machine M ResponseCall → HttpResponseParser M → Bool
response_is_finished m p = m.finish p.machine

unfoldable response_has_error : {M : Type 0} → Machine M ResponseCall → HttpResponseParser M → Bool
response_has_error m p = not (p.error == 0) || m.has_error p.machine

unfoldable response_content_length : {M : Type 0} → (Text → Option ℕ) → HttpResponseParser M → ℕ
response_content_length cast p = get_as cast p.data_.headers (codes "content-length") 0
