-- ===== src/Http/Headers.antt =====
-- The header maps of src/http/http.h under the operations of src/http/http.cpp.
use cool.Base.{◌≡◌, refl, ap, ◌∙◌, false, [], ◌∷◌, Option, some, Bool-cases, Option-cases, inl, inr}
use cool.Base.Text.{Text, c_str, lower}
use text.Mathlib.TextPositions.{compare_self}
use Prim.Native.Nat.{Ordering}
use cool.Http.{compare_text, strcasecmp, less, MapType, find, assign, check_get_as, get_as}
use cool.Http.Message.{HttpRequest, set_cookie, get_cookie, del_cookie, set_header, get_header}

compare_text_refl : (s : Text) → compare_text s s ≡ Ordering.eq
unfolding compare_text
compare_text_refl [] = refl
compare_text_refl (c ∷ s) =
    ap
      (λ (o : Ordering). elim o as (λ _. Ordering) [
        | Ordering.lt ↦ Ordering.lt
        | Ordering.eq ↦ compare_text s s
        | Ordering.gt ↦ Ordering.gt
      ])
      (compare_self (lower c))
    ∙ compare_text_refl s

less_irrefl : (s : Text) → less s s ≡ false
unfolding strcasecmp
less_irrefl s = rw (less, compare_text_refl (c_str s))

find_head : (key val : Text) (m : MapType) → find key ((key, val) ∷ m) ≡ some val
unfolding find
find_head key val m = rw (less_irrefl key)

pub find-assign : (key val : Text) (m : MapType) → find key (assign key val m) ≡ some val
unfolding find assign
find-assign key val [] = find_head key val []
find-assign key val ((k, v) ∷ m) = elim (Bool-cases (less k key)) [
  | inl e ↦ rw e (rw (e, find-assign key val m))
  | inr e ↦ rw e (elim (Bool-cases (less key k)) [
    | inl f ↦ rw (f, find_head key val ((k, v) ∷ m))
    | inr f ↦ rw f (rw (e, f))
  ])
]

-- A header that was set is read back, and so is a cookie; delCookie does not remove the cookie,
-- since it erases from the parameters.
pub set_get_lem :
    (r : HttpRequest) (key val def : Text)
    → (get_header (set_header r key val) key def ≡ val)
      × (get_cookie (set_cookie r key val) key def ≡ val)
      × (get_cookie (del_cookie (set_cookie r key val) key) key def ≡ val)
unfolding get_header set_header get_cookie set_cookie del_cookie
set_get_lem r key val def = (
  rw (find-assign key val r.headers),
  rw (find-assign key val r.cookies),
  rw (find-assign key val r.cookies),
)

-- check_get_as answers the value of get_as, and says whether it is the header's own.
pub check_get_as-get_as :
    {T : Type 0} (cast : Text → Option T) (m : MapType) (key : Text) (def : T)
    → (check_get_as cast m key def).1 ≡ get_as cast m key def
unfolding check_get_as get_as
check_get_as-get_as cast m key def = elim (Option-cases (find key m)) [
  | inl n ↦ rw (check_get_as, get_as, n)
  | inr (v, n) ↦ elim (Option-cases (cast v)) [
    | inl k ↦ rw (check_get_as, get_as, n, k)
    | inr (t, k) ↦ rw (check_get_as, get_as, n, k)
  ]
]
