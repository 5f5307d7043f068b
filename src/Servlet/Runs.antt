-- ===== src/Servlet/Runs.antt =====
-- A dispatch table of src/http/servlet.cpp, and the theorems at it.
use cool.Base.{ℕ, suc, ◌≡◌, Bool, [], ◌∷◌, some, if◌then◌else◌}
use Prim.Native.String.{String}
use text.Mathlib.Text.{◌==◌}
use cool.Servlet.{Servlet, ServletDispatch, not_found, function, add_servlet, get_matched_servlet}
use cool.Servlet.Dispatch.{get_matched_servlet-add_servlet}

-- An exact entry, and a pattern; a response is a number.
abbrev page : Servlet ℕ
page = function (λ r. (suc r, 0))

abbrev table : ServletDispatch ℕ
table = record {
  datas = ("/a", some page) ∷ [];
  globs = ("/b*", some page) ∷ [];
  fallback = some not_found;
}

abbrev matches : String → String → Bool
matches p path = p == "/b*"

get_matched_servlet-add_servlet_example :
    get_matched_servlet matches (add_servlet table "/c" (some page)) "/c"
    ≡ (if "/c" == "/c" then some page else get_matched_servlet matches table "/c")
get_matched_servlet-add_servlet_example =
    get_matched_servlet-add_servlet matches table "/c" "/c" (some page)
