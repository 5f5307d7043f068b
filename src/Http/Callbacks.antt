-- ===== src/Http/Callbacks.antt =====
-- What the callbacks of src/http/http_parser.cpp make of a request and of a response.
use cool.Base.{
  ℕ, ◌≡◌, ap, ◌∙◌, Bool, true, false, not, ◌&&◌, List, [], ◌∷◌, ◌==◌, Option-cases, inl, inr,
  is_some, arith,
}
use cool.Http.{chars_to_http_method, invalid_method}
use cool.Http.Message.{HttpRequest, HttpResponse}
use cool.Http.Parser.{
  RequestCall, request_method, request_uri, fragment, request_path, query_string, http_version,
  header_done, http_field, version_of, on_request, run_calls, ResponseCall, reason_phrase,
  status_code, chunk_size, response_version, response_header_done, last_chunk, response_field,
  on_response, run_response_calls,
}

-- A method of the table and a version 1.0 or 1.1; the other calls cannot fail.
abbrev pub is_valid_call : RequestCall → Bool
is_valid_call (request_method at length) = not (chars_to_http_method at == invalid_method)
is_valid_call (http_version at length) = is_some (version_of at length)
is_valid_call (request_uri at length) = true
is_valid_call (fragment at length) = true
is_valid_call (request_path at length) = true
is_valid_call (query_string at length) = true
is_valid_call header_done = true
is_valid_call (http_field field value) = true

abbrev pub all_valid : List RequestCall → Bool
all_valid [] = true
all_valid (c ∷ cs) = is_valid_call c && all_valid cs

on_request_error :
    (c : RequestCall) (p : ℕ × HttpRequest)
    → ((on_request c p).0 == 0) ≡ (p.0 == 0 && is_valid_call c)
unfolding on_request
on_request_error (request_method at length) p = ground arith
on_request_error (http_version at length) p = elim (Option-cases (version_of at length)) [
  | inl n ↦ ground arith
  | inr (v, n) ↦ ground arith
]
on_request_error (request_uri at length) p = ground arith
on_request_error (fragment at length) p = ground arith
on_request_error (request_path at length) p = ground arith
on_request_error (query_string at length) p = ground arith
on_request_error header_done p = ground arith
on_request_error (http_field [] value) p = ground arith
on_request_error (http_field (c ∷ field) value) p = ground arith

-- However the machine cuts a request into calls, m_error stays 0 just when it was 0 and every call
-- is valid: no later callback hides the error of an earlier one.
pub run_calls_error :
    (cs : List RequestCall) (p : ℕ × HttpRequest)
    → ((run_calls cs p).0 == 0) ≡ (p.0 == 0 && all_valid cs)
unfolding run_calls
run_calls_error [] p = ground arith
run_calls_error (c ∷ cs) p =
    run_calls_error cs (on_request c p)
    ∙ ap (λ b. b && all_valid cs) (on_request_error c p)
    ∙ ground arith

-- A version 1.0 or 1.1 and a header with a name; a status is never refused.
abbrev is_valid_response_call : ResponseCall → Bool
is_valid_response_call (reason_phrase at length) = true
is_valid_response_call (status_code at length) = true
is_valid_response_call (chunk_size at length) = true
is_valid_response_call (response_version at length) = is_some (version_of at length)
is_valid_response_call response_header_done = true
is_valid_response_call last_chunk = true
is_valid_response_call (response_field [] value) = false
is_valid_response_call (response_field (c ∷ field) value) = true

abbrev all_valid_response : List ResponseCall → Bool
all_valid_response [] = true
all_valid_response (c ∷ cs) = is_valid_response_call c && all_valid_response cs

on_response_error :
    (c : ResponseCall) (p : ℕ × HttpResponse)
    → ((on_response c p).0 == 0) ≡ (p.0 == 0 && is_valid_response_call c)
unfolding on_response
on_response_error (reason_phrase at length) p = ground arith
on_response_error (status_code at length) p = ground arith
on_response_error (chunk_size at length) p = ground arith
on_response_error (response_version at length) p = elim (Option-cases (version_of at length)) [
  | inl n ↦ ground arith
  | inr (v, n) ↦ ground arith
]
on_response_error response_header_done p = ground arith
on_response_error last_chunk p = ground arith
on_response_error (response_field [] value) p = ground arith
on_response_error (response_field (c ∷ field) value) p = ground arith

-- The same of a response.
run_response_calls_error :
    (cs : List ResponseCall) (p : ℕ × HttpResponse)
    → ((run_response_calls cs p).0 == 0) ≡ (p.0 == 0 && all_valid_response cs)
unfolding run_response_calls
run_response_calls_error [] p = ground arith
run_response_calls_error (c ∷ cs) p =
    run_response_calls_error cs (on_response c p)
    ∙ ap (λ b. b && all_valid_response cs) (on_response_error c p)
    ∙ ground arith
