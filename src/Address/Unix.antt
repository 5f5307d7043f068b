-- ===== src/Address/Unix.antt =====
-- UnixAddress of src/address.cpp. sun_path has 108 bytes and stands behind the 2 bytes of the family.
use cool.Base.{
  ℕ, suc, ◌+◌, ◌-◌, ◌≤◌, ◌<◌, ◌≡◌, refl, ap, Bool, true, false, ◌&&◌, [], ◌∷◌, ◌++◌, Option, none,
  some, arith, length, take, replicate, length-append, length-replicate, ltb, ◌==◌, if◌then◌else◌,
  All,
}
use cool.Base.Text.{Text, codes, c_str}
use cool.ByteArray.Flat.{take_all}

pub record UnixAddress : Type 0 where
  pub sun_path : Text
  pub len : ℕ

abbrev pub begins_with_nul : Text → Bool
begins_with_nul [] = false
begins_with_nul (c ∷ s) = c == 0

-- UnixAddress(): all zero.
unfoldable pub new_unix_empty : UnixAddress
new_unix_empty = record { sun_path = replicate 108 0; len = 2 + 107 }

-- m_len before the check.
abbrev pub path_len : Text → ℕ
path_len path = if begins_with_nul path then length path else length path + 1

-- UnixAddress(path); `none` is the logic_error. memcpy copies the path and its NUL.
unfoldable pub new_unix : Text → Option UnixAddress
new_unix path =
    if ltb 108 (path_len path)
    then none
    else some (record {
      sun_path = take 108 (path ++ replicate (108 - length path) 0);
      len = path_len path + 2;
    })

-- insert.
unfoldable pub to_text : UnixAddress → Text
to_text a = elim a.sun_path [
  | [] ↦ []
  | c ∷ rest ↦
      if ltb 2 a.len && c == 0 then codes "\\0" ++ take (a.len - 2 - 1) rest else c_str (c ∷ rest)
]

length-padded : (s : Text) (k : ℕ) → length (s ++ replicate k 0) ≡ length s + k
length-padded s k = omega (arith, length-append s (replicate k 0), length-replicate {A = ℕ} k 0)

padded_lem :
    (path : Text)
    → length path ≤ 108
    → take 108 (path ++ replicate (108 - length path) 0) ≡ path ++ replicate (108 - length path) 0
padded_lem path h =
    take_all 108 (path ++ replicate (108 - length path) 0)
      (omega (arith, length-padded path (108 - length path)))

abbrev pub NoNul : Text → Type 0
NoNul = All (λ c. (c == 0) ≡ false)

c_str-padded : (s : Text) (k : ℕ) → NoNul s → c_str (s ++ replicate (suc k) 0) ≡ s
unfolding c_str
c_str-padded [] k h = refl
c_str-padded (c ∷ s) k h = rw (h.0) (ap (◌∷◌ c) (c_str-padded s k h.1))

take_front : (s t : Text) → take (length s) (s ++ t) ≡ s
take_front [] [] = refl
take_front [] (x ∷ t) = refl
take_front (c ∷ s) t = ap (◌∷◌ c) (take_front s t)

named_lem :
    (c : ℕ) (s : Text)
    → NoNul (c ∷ s)
    → length (c ∷ s) ≤ 107
    → (a : UnixAddress) × (new_unix (c ∷ s) ≡ some a) × (to_text a ≡ c ∷ s)
unfolding new_unix to_text
named_lem c s h l =
    let e : ltb 108 (length (c ∷ s) + 1) ≡ false = ground arith in
    let k = 107 - length (c ∷ s) in
    let g : 108 - length (c ∷ s) ≡ suc k = omega arith in
    let w : (ltb 2 (length (c ∷ s) + 1 + 2) && c == 0) ≡ false = ground (arith, h.0) in
    (
      record { sun_path = c ∷ s ++ replicate (suc k) 0; len = length (c ∷ s) + 1 + 2 },
      rw (new_unix, h.0, e, padded_lem (c ∷ s) (omega arith), g) refl,
      rw w (c_str-padded (c ∷ s) k h),
    )

abstract_lem :
    (s : Text)
    → length s ≤ 107
    → (a : UnixAddress) × (new_unix (0 ∷ s) ≡ some a) × (to_text a ≡ codes "\\0" ++ s)
unfolding new_unix to_text
abstract_lem s l =
    let e : ltb 108 (length (0 ∷ s)) ≡ false = ground arith in
    let k = 108 - length (0 ∷ s) in
    let w : (ltb 2 (length (0 ∷ s) + 2) && true) ≡ true = ground arith in
    let n : length (0 ∷ s) + 2 - 2 - 1 ≡ length s = omega arith in
    (
      record { sun_path = 0 ∷ s ++ replicate k 0; len = length (0 ∷ s) + 2 },
      rw (new_unix, e, padded_lem (0 ∷ s) (omega arith)) refl,
      rw (w, n) (ap (λ t. codes "\\0" ++ t) (take_front s (replicate k 0))),
    )

-- A path of 1 to 107 bytes without a NUL is printed as it was given, and an abstract one, a NUL
-- followed by at most 107 bytes, with the NUL as a backslash and a zero; a path without a NUL of more
-- bytes throws.
pub unix_round_trip :
    (c : ℕ) (s : Text)
    → (NoNul (c ∷ s)
        → length (c ∷ s) ≤ 107
        → (a : UnixAddress) × (new_unix (c ∷ s) ≡ some a) × (to_text a ≡ c ∷ s))
      × (length s ≤ 107
          → (a : UnixAddress) × (new_unix (0 ∷ s) ≡ some a) × (to_text a ≡ codes "\\0" ++ s))
      × (NoNul (c ∷ s) → 107 < length (c ∷ s) → new_unix (c ∷ s) ≡ none)
unfolding new_unix
unix_round_trip c s = (
  named_lem c s,
  abstract_lem s,
  λ h l. let e : ltb 108 (length (c ∷ s) + 1) ≡ true = ground arith in rw (new_unix, h.0, e) refl,
)
