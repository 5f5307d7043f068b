-- ===== src/Http/Runs.antt =====
-- The theorems on src/http/http.cpp at concrete texts.
use cool.Base.{ℕ, ◌≡◌, List, [], ◌∷◌, Option, some, true, false, ◌==◌}
use cool.Base.Text.{Text, codes, is_prefix, c_str}
use cool.Http.{search, chars_to_http_method}
use cool.Http.Message.{new_request, set_header}
use cool.Http.Parser.{
  Machine, RequestCall, request_method, http_version, http_field, HttpRequestParser, run_calls,
  version_of, strncmp_eq, digits_value,
}
use cool.Http.Session.{Read, got}
use cool.Http.Callbacks.{run_calls_error}

run_calls_error_example :
    ((run_calls
        (request_method (codes "GET / HTTP/1.1") 3 ∷ http_version (codes "HTTP/2.0") 8 ∷ [])
        (0, new_request 17 true)).0
      == 0)
    ≡ false
unfolding chars_to_http_method search is_prefix version_of strncmp_eq c_str
run_calls_error_example =
    run_calls_error
      (request_method (codes "GET / HTTP/1.1") 3 ∷ http_version (codes "HTTP/2.0") 8 ∷ [])
      (0, new_request 17 true)

-- A machine that takes four bytes, finds one header and is done.
abbrev header_machine : Machine ℕ RequestCall
header_machine = record {
  start = 0;
  run = λ s buffer. (1, 4, http_field (codes "content-length") (codes "2") ∷ []);
  finish = λ s. s == 1;
  has_error = λ s. false;
}

abbrev to_number : Text → Option ℕ
to_number s = some (digits_value 0 s)

abbrev six_bytes : List Read
six_bytes = got (codes "abcdXY") ∷ []

abbrev parsed : HttpRequestParser ℕ
parsed = record {
  error = 0;
  data_ = set_header (new_request 17 true) (codes "content-length") (codes "2");
  machine = 1;
}
