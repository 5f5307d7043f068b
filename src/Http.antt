-- ===== src/Http.antt =====
-- src/http/http.h and src/http/http.cpp: methods, status codes and the header map. A method is
-- its number of HTTP_METHOD_MAP, a status its code; strings are the lists of their bytes.
pub mod Names
pub mod Message
pub mod Headers
pub mod Parser
pub mod Session
pub mod Callbacks
pub mod Receive
mod Runs
use cool.Base.{
  ℕ, zero, suc, ◌+◌, ◌/◌, ◌%◌, Bool, true, false, not, ◌&&◌, List, [], ◌∷◌, ◌++◌, map, Option, none,
  some, length, get_elem?, ltb, leb, ◌==◌, if◌then◌else◌,
}
use cool.Base.Text.{Text, codes, c_str, text_eq, is_prefix, lower, decimal}
use Prim.Native.Nat.{compare, Ordering}

-- The third column of HTTP_METHOD_MAP as the preprocessor spells it: `M - SEARCH` has spaces.
abbrev pub methods : List Text
methods =
    codes "DELETE"
    ∷ codes "GET"
    ∷ codes "HEAD"
    ∷ codes "POST"
    ∷ codes "PUT"
    ∷ codes "CONNECT"
    ∷ codes "OPTIONS"
    ∷ codes "TRACE"
    ∷ codes "COPY"
    ∷ codes "LOCK"
    ∷ codes "MKCOL"
    ∷ codes "MOVE"
    ∷ codes "PROPFIND"
    ∷ codes "PROPPATCH"
    ∷ codes "SEARCH"
    ∷ codes "UNLOCK"
    ∷ codes "BIND"
    ∷ codes "REBIND"
    ∷ codes "UNBIND"
    ∷ codes "ACL"
    ∷ codes "REPORT"
    ∷ codes "MKACTIVITY"
    ∷ codes "CHECKOUT"
    ∷ codes "MERGE"
    ∷ codes "M - SEARCH"
    ∷ codes "NOTIFY"
    ∷ codes "SUBSCRIBE"
    ∷ codes "UNSUBSCRIBE"
    ∷ codes "PATCH"
    ∷ codes "PURGE"
    ∷ codes "MKCALENDAR"
    ∷ codes "LINK"
    ∷ codes "UNLINK"
    ∷ codes "SOURCE"
    ∷ []

abbrev pub invalid_method : ℕ
invalid_method = 34

abbrev pub get : ℕ
get = 1

-- HTTP_STATUS_MAP: codes and messages.
abbrev pub statuses : List (ℕ × Text)
statuses =
    (100, codes "Continue")
    ∷ (101, codes "Switching Protocols")
    ∷ (102, codes "Processing")
    ∷ (200, codes "OK")
    ∷ (201, codes "Created")
    ∷ (202, codes "Accepted")
    ∷ (203, codes "Non - Authoritative Information")
    ∷ (204, codes "No Content")
    ∷ (205, codes "Reset Content")
    ∷ (206, codes "Partial Content")
    ∷ (207, codes "Multi - Status")
    ∷ (208, codes "Already Reported")
    ∷ (226, codes "IM Used")
    ∷ (300, codes "Multiple Choices")
    ∷ (301, codes "Moved Permanently")
    ∷ (302, codes "Found")
    ∷ (303, codes "See Other")
    ∷ (304, codes "Not Modified")
    ∷ (305, codes "Use Proxy")
    ∷ (307, codes "Temporary Redirect")
    ∷ (308, codes "Permanent Redirect")
    ∷ (400, codes "Bad Request")
    ∷ (401, codes "Unauthorized")
    ∷ (402, codes "Payment Required")
    ∷ (403, codes "Forbidden")
    ∷ (404, codes "Not Found")
    ∷ (405, codes "Method Not Allowed")
    ∷ (406, codes "Not Acceptable")
    ∷ (407, codes "Proxy Authentication Required")
    ∷ (408, codes "Request Timeout")
    ∷ (409, codes "Conflict")
    ∷ (410, codes "Gone")
    ∷ (411, codes "Length Required")
    ∷ (412, codes "Precondition Failed")
    ∷ (413, codes "Payload Too Large")
    ∷ (414, codes "URI Too Long")
    ∷ (415, codes "Unsupported Media Type")
    ∷ (416, codes "Range Not Satisfiable")
    ∷ (417, codes "Expectation Failed")
    ∷ (421, codes "Misdirected Request")
    ∷ (422, codes "Unprocessable Entity")
    ∷ (423, codes "Locked")
    ∷ (424, codes "Failed Dependency")
    ∷ (426, codes "Upgrade Required")
    ∷ (428, codes "Precondition Required")
    ∷ (429, codes "Too Many Requests")
    ∷ (431, codes "Request Header Fields Too Large")
    ∷ (451, codes "Unavailable For Legal Reasons")
    ∷ (500, codes "Internal Server Error")
    ∷ (501, codes "Not Implemented")
    ∷ (502, codes "Bad Gateway")
    ∷ (503, codes "Service Unavailable")
    ∷ (504, codes "Gateway Timeout")
    ∷ (505, codes "HTTP Version Not Supported")
    ∷ (506, codes "Variant Also Negotiates")
    ∷ (507, codes "Insufficient Storage")
    ∷ (508, codes "Loop Detected")
    ∷ (510, codes "Not Extended")
    ∷ (511, codes "Network Authentication Required")
    ∷ []

-- The ladders of comparisons, in the order of the table; `i` is the number of the first entry.
unfoldable pub search : (Text → Bool) → List Text → ℕ → ℕ
search p [] i = invalid_method
search p (name ∷ names) i = let rest = search p names (suc i) in if p name then i else rest

unfoldable pub string_to_http_method : Text → ℕ
string_to_http_method v = search (λ name. text_eq name (c_str v)) methods 0

-- strncmp with the length of the table's name: the name is a prefix of the text.
unfoldable pub chars_to_http_method : Text → ℕ
chars_to_http_method v = search (λ name. is_prefix name (c_str v)) methods 0

abbrev pub unknown : Text
unknown = codes "<unknow>"

unfoldable pub http_method_to_chars : ℕ → Text
http_method_to_chars v = elim (get_elem? methods v) [ none ↦ unknown | some name ↦ name ]

unfoldable pub lookup_status : List (ℕ × Text) → ℕ → Text
lookup_status [] v = unknown
lookup_status ((code_, msg) ∷ rest) v = if code_ == v then msg else lookup_status rest v

unfoldable pub http_status_to_chars : ℕ → Text
http_status_to_chars v = lookup_status statuses v

-- strcasecmp: the sign of the first difference of the lower-cased C strings.
unfoldable pub compare_text : Text → Text → Ordering
compare_text [] [] = Ordering.eq
compare_text [] (y ∷ ys) = Ordering.lt
compare_text (x ∷ xs) [] = Ordering.gt
compare_text (x ∷ xs) (y ∷ ys) =
    let rest = compare_text xs ys in
    elim (compare (lower x) (lower y)) [
      | Ordering.lt ↦ Ordering.lt
      | Ordering.eq ↦ rest
      | Ordering.gt ↦ Ordering.gt
    ]

unfoldable pub strcasecmp : Text → Text → Ordering
strcasecmp l r = compare_text (c_str l) (c_str r)

-- CaseInsensitiveLess.
abbrev pub less : Text → Text → Bool
less l r = elim (strcasecmp l r) [ Ordering.lt ↦ true | _ ↦ false ]

-- MapType: std::map in the order of CaseInsensitiveLess, as its entries in order.
abbrev pub MapType : Type 0
MapType = List (Text × Text)

unfoldable pub find : Text → MapType → Option Text
find key [] = none
find key ((k, v) ∷ m) =
    let rest = find key m in if less k key then rest else (if less key k then none else some v)

-- m[key] = val: an equivalent key keeps its spelling.
unfoldable pub assign : Text → Text → MapType → MapType
assign key val [] = (key, val) ∷ []
assign key val ((k, v) ∷ m) =
    let rest = assign key val m in
    if less k key
    then (k, v) ∷ rest
    else (if less key k then (key, val) ∷ ((k, v) ∷ m) else (k, val) ∷ m)

unfoldable pub erase : Text → MapType → MapType
erase key [] = []
erase key ((k, v) ∷ m) =
    let rest = erase key m in
    if less k key then (k, v) ∷ rest else (if less key k then (k, v) ∷ m else m)

-- checkGetAs and getAs over boost::lexical_cast, which is the argument `cast`.
unfoldable pub check_get_as : {T : Type 0} → (Text → Option T) → MapType → Text → T → Bool × T
check_get_as cast m key def = elim (find key m) [
  | none ↦ (false, def)
  | some v ↦ elim (cast v) [ none ↦ (false, def) | some t ↦ (true, t) ]
]

unfoldable pub get_as : {T : Type 0} → (Text → Option T) → MapType → Text → T → T
get_as cast m key def = elim (find key m) [
  | none ↦ def
  | some v ↦ elim (cast v) [ none ↦ def | some t ↦ t ]
]
