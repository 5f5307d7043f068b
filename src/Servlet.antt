-- ===== src/Servlet.antt =====
-- src/http/servlet.h and src/http/servlet.cpp: the table that finds the servlet of a request path.
-- A servlet pointer is `Option Servlet`; fnmatch(3) is the argument `fnmatch`, true for a match.
pub mod Dispatch
mod Runs
use cool.Base.{ℕ, Bool, true, false, List, [], ◌∷◌, ◌++◌, Option, none, some, if◌then◌else◌}
use Prim.Native.String.{String}
use text.Mathlib.Text.{◌==◌}

-- What handling a request leaves behind is a value of the caller's type `R`; a callback stands for
-- its effect on the response.
pub data Servlet (R : Type 0) : Type 0 where
  function : (R → R × ℕ) → Servlet R
  not_found : Servlet R

pub record ServletDispatch (R : Type 0) : Type 0 where
  pub datas : List (String × Option (Servlet R))
  pub globs : List (String × Option (Servlet R))
  pub fallback : Option (Servlet R)

module _ {R : Type 0} where
  -- ServletDispatch().
  unfoldable pub new : ServletDispatch R
  new = record { datas = []; globs = []; fallback = some not_found }

  -- The unordered_map: find, assignment and erase by key.
  unfoldable pub find : String → List (String × Option (Servlet R)) → Option (Option (Servlet R))
  find uri [] = none
  find uri ((j, s) ∷ m) = if j == uri then some s else find uri m

  unfoldable pub assign :
      String
      → Option (Servlet R)
      → List (String × Option (Servlet R))
      → List (String × Option (Servlet R))
  assign uri s [] = (uri, s) ∷ []
  assign uri s ((j, t) ∷ m) = if j == uri then (j, s) ∷ m else (j, t) ∷ assign uri s m

  unfoldable pub erase_all :
      String → List (String × Option (Servlet R)) → List (String × Option (Servlet R))
  erase_all uri [] = []
  erase_all uri ((j, t) ∷ m) = if j == uri then erase_all uri m else (j, t) ∷ erase_all uri m

  -- The loop over m_globs that erases the first entry of the uri.
  unfoldable pub erase_first :
      String → List (String × Option (Servlet R)) → List (String × Option (Servlet R))
  erase_first uri [] = []
  erase_first uri ((j, t) ∷ m) = if j == uri then m else (j, t) ∷ erase_first uri m

  unfoldable pub add_servlet : ServletDispatch R → String → Option (Servlet R) → ServletDispatch R
  add_servlet d uri s = record d { datas = assign uri s d.datas }

  unfoldable pub add_servlet_cb : ServletDispatch R → String → (R → R × ℕ) → ServletDispatch R
  add_servlet_cb d uri cb = record d { datas = assign uri (some (function cb)) d.datas }

  unfoldable pub add_glob_servlet :
      ServletDispatch R → String → Option (Servlet R) → ServletDispatch R
  add_glob_servlet d uri s = record d { globs = erase_first uri d.globs ++ (uri, s) ∷ [] }

  unfoldable pub add_glob_servlet_cb : ServletDispatch R → String → (R → R × ℕ) → ServletDispatch R
  add_glob_servlet_cb d uri cb = add_glob_servlet d uri (some (function cb))

  unfoldable pub del_servlet : ServletDispatch R → String → ServletDispatch R
  del_servlet d uri = record d { datas = erase_all uri d.datas }

  unfoldable pub del_glob_servlet : ServletDispatch R → String → ServletDispatch R
  del_glob_servlet d uri = record d { globs = erase_first uri d.globs }

  -- A null pointer for a missing key.
  abbrev pub or_null : Option (Option (Servlet R)) → Option (Servlet R)
  or_null none = none
  or_null (some s) = s

  unfoldable pub get_servlet : ServletDispatch R → String → Option (Servlet R)
  get_servlet d uri = or_null (find uri d.datas)

  unfoldable pub get_glob_servlet : ServletDispatch R → String → Option (Servlet R)
  get_glob_servlet d uri = or_null (find uri d.globs)

  -- The loop over m_globs with fnmatch, and the default behind it.
  unfoldable pub glob_match :
      (String → String → Bool)
      → String
      → Option (Servlet R)
      → List (String × Option (Servlet R))
      → Option (Servlet R)
  glob_match fnmatch uri fallback [] = fallback
  glob_match fnmatch uri fallback ((pattern_, s) ∷ m) =
      if fnmatch pattern_ uri then s else glob_match fnmatch uri fallback m

  unfoldable pub get_matched_servlet :
      (String → String → Bool) → ServletDispatch R → String → Option (Servlet R)
  get_matched_servlet fnmatch d uri = elim (find uri d.datas) [
    | some s ↦ s
    | none ↦ glob_match fnmatch uri d.fallback d.globs
  ]

  -- Servlet::handle by its class; `write_404` is what NotFoundServlet writes into the response.
  unfoldable pub serve : (R → R) → Servlet R → R → R × ℕ
  serve write_404 (function cb) r = cb r
  serve write_404 not_found r = (write_404 r, 0)

  -- ServletDispatch::handle: the response, and the result, which is always 0.
  unfoldable pub handle :
      (String → String → Bool) → (R → R) → ServletDispatch R → String → R → R × ℕ
  handle fnmatch write_404 d path r = elim (get_matched_servlet fnmatch d path) [
    | none ↦ (r, 0)
    | some s ↦ ((serve write_404 s r).0, 0)
  ]
