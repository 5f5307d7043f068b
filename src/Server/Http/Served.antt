-- ===== src/Server/Http/Served.antt =====
-- Which responses handle_client of src/http/http_server.cpp sends, and that it ends.
use cool.Base.{ℕ, ◌^◌, ◌≤◌, ◌<◌, ◌≡◌, Bool, List, [], ◌∷◌, ◌++◌, some, map, length}
use cool.Base.Text.{Text}
use Prim.Native.String.{String}
use cool.Http.Message.{HttpRequest, HttpResponse, dump_response}
use cool.Stream.Fix.{IsPartial}
use cool.Server.Http.{End, Handled}

abbrev pub concat : List Text → Text
concat [] = []
concat (t ∷ ts) = t ++ concat ts

-- A write that takes at least a byte of what it is handed.
abbrev pub IsOpen : {S : Type 0} → (S → List ℕ → S × ℕ) → Type 0
IsOpen {S = S} write = (s : S) (bs : List ℕ) → 0 < length bs → 0 < (write s bs).1

module _ {S : Type 0} (write : S → List ℕ → S × ℕ) (sent : S → List ℕ)
    (answer : HttpRequest → HttpResponse) (keep : Bool) (n : ℕ) (partial : IsPartial write sent)
    (open_ : IsOpen write) (b : n ≤ 2 ^ 64) where
  abbrev Small : HttpRequest → Type 0
  Small r = length (dump_response (answer r)) < n

  -- That the requests `rs` were answered from the stream `s` on.
  abbrev Answered : S → Handled S → List HttpRequest × End → Type 0
  Answered s result rs =
      (s' : S) × (result ≡ some (s', map answer rs.0, rs.1))
      × (sent s' ≡ sent s ++ concat (map (λ r. dump_response (answer r)) rs.0))
