-- ===== src/Http/Message.antt =====
-- HttpRequest and HttpResponse of src/http/http.h and src/http/http.cpp: their fields, their headers
-- and their text.
use cool.Base.{ℕ, ◌/◌, ◌%◌, Bool, [], ◌∷◌, ◌++◌, Option, none, some, length, if◌then◌else◌}
use cool.Base.Text.{Text, codes, decimal}
use Prim.Native.Nat.{Ordering}
use cool.Http.{
  MapType, find, assign, erase, get, strcasecmp, http_method_to_chars, http_status_to_chars,
}

pub record HttpRequest : Type 0 where
  pub method : ℕ
  pub version : ℕ
  pub close : Bool
  pub path : Text
  pub query : Text
  pub fragment : Text
  pub body : Text
  pub headers : MapType
  pub params : MapType
  pub cookies : MapType

unfoldable pub new_request : ℕ → Bool → HttpRequest
new_request version close = record {
  method = get;
  version = version;
  close = close;
  path = codes "/";
  query = [];
  fragment = [];
  body = [];
  headers = [];
  params = [];
  cookies = [];
}

abbrev or_default : Option Text → Text → Text
or_default none def = def
or_default (some v) def = v

unfoldable pub get_header : HttpRequest → Text → Text → Text
get_header r key def = or_default (find key r.headers) def

unfoldable pub get_param : HttpRequest → Text → Text → Text
get_param r key def = or_default (find key r.params) def

unfoldable pub get_cookie : HttpRequest → Text → Text → Text
get_cookie r key def = or_default (find key r.cookies) def

unfoldable pub set_header : HttpRequest → Text → Text → HttpRequest
set_header r key val = record r { headers = assign key val r.headers }

unfoldable pub set_param : HttpRequest → Text → Text → HttpRequest
set_param r key val = record r { params = assign key val r.params }

unfoldable pub set_cookie : HttpRequest → Text → Text → HttpRequest
set_cookie r key val = record r { cookies = assign key val r.cookies }

unfoldable pub del_header : HttpRequest → Text → HttpRequest
del_header r key = record r { headers = erase key r.headers }

unfoldable pub del_param : HttpRequest → Text → HttpRequest
del_param r key = record r { params = erase key r.params }

-- delCookie erases from m_params.
unfoldable pub del_cookie : HttpRequest → Text → HttpRequest
del_cookie r key = record r { params = erase key r.params }

-- hasHeader, hasParam and hasCookie: what is stored through `val`, which is not null, if anything.
unfoldable pub has_header : HttpRequest → Text → Option Text
has_header r key = find key r.headers

unfoldable pub has_param : HttpRequest → Text → Option Text
has_param r key = find key r.params

unfoldable pub has_cookie : HttpRequest → Text → Option Text
has_cookie r key = find key r.cookies

abbrev crlf : Text
crlf = 13 ∷ 10 ∷ []

-- The loop over m_headers that skips Connection; `colon` stands between key and value.
unfoldable pub dump_headers : Text → MapType → Text
dump_headers colon [] = []
dump_headers colon ((k, v) ∷ m) = elim (strcasecmp k (codes "Connection")) [
  | Ordering.eq ↦ dump_headers colon m
  | _ ↦ k ++ colon ++ v ++ crlf ++ dump_headers colon m
]

abbrev connection : Bool → Text
connection close =
    codes "Connection: " ++ (if close then codes "close" else codes "keep-alive") ++ crlf

abbrev dump_body : Text → Text
dump_body [] = crlf
dump_body (c ∷ s) = codes "Content-Length: " ++ decimal (length (c ∷ s)) ++ crlf ++ crlf ++ (c ∷ s)

-- A part of the uri with its mark, nothing for an empty part.
abbrev marked : ℕ → Text → Text
marked mark [] = []
marked mark (c ∷ s) = mark ∷ (c ∷ s)

abbrev dump_version : ℕ → Text
dump_version v = codes "HTTP/" ++ decimal (v / 16) ++ codes "." ++ decimal (v % 16)

-- HttpRequest::dump and to_string.
unfoldable pub dump : HttpRequest → Text
dump r =
    http_method_to_chars r.method
    ++ codes " "
    ++ r.path
    ++ marked b'?' r.query
    ++ marked b'#' r.fragment
    ++ codes " "
    ++ dump_version r.version
    ++ crlf
    ++ connection r.close
    ++ dump_headers (codes ":") r.headers
    ++ dump_body r.body

pub record HttpResponse : Type 0 where
  pub status : ℕ
  pub version : ℕ
  pub close : Bool
  pub body : Text
  pub reason : Text
  pub headers : MapType

unfoldable pub new_response : ℕ → Bool → HttpResponse
new_response version close = record {
  status = 200;
  version = version;
  close = close;
  body = [];
  reason = [];
  headers = [];
}

unfoldable pub response_header : HttpResponse → Text → Text → Text
response_header r key def = or_default (find key r.headers) def

unfoldable pub set_response_header : HttpResponse → Text → Text → HttpResponse
set_response_header r key val = record r { headers = assign key val r.headers }

unfoldable pub del_response_header : HttpResponse → Text → HttpResponse
del_response_header r key = record r { headers = erase key r.headers }

abbrev reason_of : Text → ℕ → Text
reason_of [] status = http_status_to_chars status
reason_of (c ∷ s) status = c ∷ s

-- HttpResponse::dump and to_string.
unfoldable pub dump_response : HttpResponse → Text
dump_response r =
    dump_version r.version
    ++ codes " "
    ++ decimal r.status
    ++ codes " "
    ++ reason_of r.reason r.status
    ++ crlf
    ++ dump_headers (codes ": ") r.headers
    ++ connection r.close
    ++ dump_body r.body
