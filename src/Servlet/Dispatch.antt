-- ===== src/Servlet/Dispatch.antt =====
-- Which servlet a path gets, after every change of the table (src/http/servlet.cpp).
use cool.Base.{
  Bool, false, List, [], ◌∷◌, ◌++◌, Option, none, some, if◌then◌else◌, ◌≡◌, ◌≢◌, refl, arith,
  Bool-cases, inl, inr, All,
}
use Prim.Native.String.{String}
use text.Mathlib.Text.{◌==◌}
use text.Mathlib.TextEquality.{eq_iff}
use text.Mathlib.TextPositions.{eq_refl}
use cool.Servlet.{
  Servlet, ServletDispatch, find, assign, erase_all, erase_first, add_servlet, add_glob_servlet,
  del_servlet, del_glob_servlet, get_glob_servlet, glob_match, get_matched_servlet,
}

module _ {R : Type 0} where
  find-assign :
      (uri path : String) (s : Option (Servlet R)) (m : List (String × Option (Servlet R)))
      → find path (assign uri s m) ≡ (if uri == path then some s else find path m)
  unfolding find assign
  find-assign uri path s [] = refl
  find-assign uri path s ((j, t) ∷ m) =
      ground (arith, eq_iff j uri, eq_iff j path, eq_iff uri path, find-assign uri path s m)

  find-erase_all :
      (uri path : String) (m : List (String × Option (Servlet R)))
      → find path (erase_all uri m) ≡ (if uri == path then none else find path m)
  unfolding find erase_all
  find-erase_all uri path [] = ground arith
  find-erase_all uri path ((j, t) ∷ m) =
      ground (arith, eq_iff j uri, eq_iff j path, eq_iff uri path, find-erase_all uri path m)

  -- After add_servlet its own path gets that servlet whatever the patterns are, and every other path
  -- gets what it got before.
  pub get_matched_servlet-add_servlet :
      (fnmatch : String → String → Bool) (d : ServletDispatch R) (uri path : String)
      (s : Option (Servlet R))
      → get_matched_servlet fnmatch (add_servlet d uri s) path
        ≡ (if uri == path then s else get_matched_servlet fnmatch d path)
  unfolding get_matched_servlet add_servlet
  get_matched_servlet-add_servlet fnmatch d uri path s =
      ground (arith, find-assign uri path s d.datas)

  -- After del_servlet its own path gets the first matching pattern or else the default, and every
  -- other path gets what it got before.
  pub get_matched_servlet-del_servlet :
      (fnmatch : String → String → Bool) (d : ServletDispatch R) (uri path : String)
      → get_matched_servlet fnmatch (del_servlet d uri) path ≡ (
          if uri == path
          then glob_match fnmatch path d.fallback d.globs
          else get_matched_servlet fnmatch d path)
  unfolding get_matched_servlet del_servlet
  get_matched_servlet-del_servlet fnmatch d uri path =
      ground (arith, find-erase_all uri path d.datas)

  -- No pattern stands twice.
  abbrev pub Fresh : String → List (String × Option (Servlet R)) → Type 0
  Fresh uri = All (λ e. (e.0 == uri) ≡ false)

  abbrev pub Once : List (String × Option (Servlet R)) → Type 0
  Once [] = Unit {0}
  Once ((j, t) ∷ m) = Fresh j m × Once m

  Fresh-erase_first :
      (uri k : String) (m : List (String × Option (Servlet R)))
      → Fresh k m
      → Fresh k (erase_first uri m)
  unfolding erase_first
  Fresh-erase_first uri k [] f = tt
  Fresh-erase_first uri k ((j, t) ∷ m) f = elim (Bool-cases (j == uri)) [
    | inl e ↦ rw e f.1
    | inr e ↦ rw e (f.0, Fresh-erase_first uri k m f.1)
  ]

  Once-erase_first :
      (uri : String) (m : List (String × Option (Servlet R))) → Once m → Once (erase_first uri m)
  unfolding erase_first
  Once-erase_first uri [] o = tt
  Once-erase_first uri ((j, t) ∷ m) o = elim (Bool-cases (j == uri)) [
    | inl e ↦ rw e o.1
    | inr e ↦ rw e (Fresh-erase_first uri j m o.0, Once-erase_first uri m o.1)
  ]

  erased-Fresh :
      (uri : String) (m : List (String × Option (Servlet R)))
      → Once m
      → Fresh uri (erase_first uri m)
  unfolding erase_first
  erased-Fresh uri [] o = tt
  erased-Fresh uri ((j, t) ∷ m) o = elim (Bool-cases (j == uri)) [
    | inl e ↦ let same : j ≡ uri = (eq_iff j uri).0 e in rw e (rw (← same) o.0)
    | inr e ↦ rw e (e, erased-Fresh uri m o.1)
  ]

  Once-append :
      (uri : String) (s : Option (Servlet R)) (m : List (String × Option (Servlet R)))
      → Once m
      → Fresh uri m
      → Once (m ++ (uri, s) ∷ [])
  Once-append uri s [] o f = (tt, tt)
  Once-append uri s ((j, t) ∷ m) o f =
      let apart : (uri == j) ≡ false = ground (arith, eq_iff j uri, eq_iff uri j, f.0) in
      (Fresh-append uri j s m o.0 apart, Once-append uri s m o.1 f.1)
    where
      Fresh-append :
          (uri k : String) (s : Option (Servlet R)) (m : List (String × Option (Servlet R)))
          → Fresh k m
          → (uri == k) ≡ false
          → Fresh k (m ++ (uri, s) ∷ [])
      Fresh-append uri k s [] f e = (e, tt)
      Fresh-append uri k s (e' ∷ m) f e = (f.0, Fresh-append uri k s m f.1 e)

  find-Fresh :
      (uri : String) (m : List (String × Option (Servlet R))) → Fresh uri m → find uri m ≡ none
  unfolding find
  find-Fresh uri [] f = refl
  find-Fresh uri ((j, t) ∷ m) f = rw f.0 (find-Fresh uri m f.1)

  find-append :
      (uri : String) (s : Option (Servlet R)) (m : List (String × Option (Servlet R)))
      → Fresh uri m
      → find uri (m ++ (uri, s) ∷ []) ≡ some s
  unfolding find
  find-append uri s [] f = rw eq_refl
  find-append uri s ((j, t) ∷ m) f = rw f.0 (find-append uri s m f.1)

  -- Where each pattern stands once, add_glob_servlet and del_glob_servlet keep it so, the added one is
  -- found, and the deleted one is gone.
  pub glob_lem :
      (d : ServletDispatch R) (uri : String) (s : Option (Servlet R))
      → Once d.globs
      → Once (add_glob_servlet d uri s).globs
        × Once (del_glob_servlet d uri).globs
        × (get_glob_servlet (add_glob_servlet d uri s) uri ≡ s)
        × (get_glob_servlet (del_glob_servlet d uri) uri ≡ none)
  unfolding add_glob_servlet del_glob_servlet get_glob_servlet
  glob_lem d uri s o =
      let f = erased-Fresh uri d.globs o in
      (
        Once-append uri s (erase_first uri d.globs) (Once-erase_first uri d.globs o) f,
        Once-erase_first uri d.globs o,
        rw (find-append uri s (erase_first uri d.globs) f),
        rw (find-Fresh uri (erase_first uri d.globs) f),
      )

  glob_match-append :
      (fnmatch : String → String → Bool) (path uri : String) (b s : Option (Servlet R))
      (m : List (String × Option (Servlet R)))
      → glob_match fnmatch path b (m ++ (uri, s) ∷ [])
        ≡ glob_match fnmatch path (if fnmatch uri path then s else b) m
  unfolding glob_match
  glob_match-append fnmatch path uri b s [] = refl
  glob_match-append fnmatch path uri b s ((j, t) ∷ m) =
      ground (arith, glob_match-append fnmatch path uri b s m)

  -- A new pattern comes behind the exact entries and the other patterns, in the order of their
  -- registration, and before the default alone.
  pub get_matched_servlet-add_glob_servlet :
      (fnmatch : String → String → Bool) (d : ServletDispatch R) (uri path : String)
      (s : Option (Servlet R))
      → get_matched_servlet fnmatch (add_glob_servlet d uri s) path
        ≡ get_matched_servlet fnmatch
            (record d {
              globs = erase_first uri d.globs;
              fallback = if fnmatch uri path then s else d.fallback;
            })
            path
  unfolding get_matched_servlet add_glob_servlet
  get_matched_servlet-add_glob_servlet fnmatch d uri path s =
      ground (arith, glob_match-append fnmatch path uri d.fallback s (erase_first uri d.globs))

  has_target :
      (fnmatch : String → String → Bool) (path : String) (b : Servlet R)
      (m : List (String × Option (Servlet R)))
      → All (λ e. e.1 ≢ none) m
      → glob_match fnmatch path (some b) m ≢ none
  unfolding glob_match
  has_target fnmatch path b [] h = λ e. cc
  has_target fnmatch path b ((j, t) ∷ m) h = elim (Bool-cases (fnmatch j path)) [
    | inl e ↦ rw e h.0
    | inr e ↦ rw e (has_target fnmatch path b m h.1)
  ]
