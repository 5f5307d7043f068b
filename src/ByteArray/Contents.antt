-- ===== src/ByteArray/Contents.antt =====
-- The abstract buffer behind src/bytearray.cpp: the bytes written so far, without the nodes.
use cool.Base.{
  ℕ, zero, suc, ◌+◌, ◌*◌, ◌≤◌, ◌≡◌, refl, sym, ap, ◌∙◌, ◌⊎◌, List, [], ◌∷◌, ◌++◌, arith, length,
  take, drop, overwrite, length-append,
}
use cool.ByteArray.{ByteArray}
use cool.ByteArray.Flat.{Uniform, flat, overwrite-nil}
use mathlib.Core.List.{append_assoc}
use native.Mathlib.Nat.{zero-add, suc-add}

-- What a reader sees: the first `size` bytes of the chain.
unfoldable pub contents : ByteArray → List ℕ
contents b = take b.size (flat b.nodes)

-- `d` with `xs` written from `pos` on, which may make it longer.
unfoldable pub splice : ℕ → List ℕ → List ℕ → List ℕ
splice pos xs d = take pos d ++ (xs ++ drop (length xs) (drop pos d))

pub drop-nil : (n : ℕ) → drop {A = ℕ} n [] ≡ []
drop-nil zero = refl
drop-nil (suc n) = refl

pub take-overwrite :
    (pos size m : ℕ) (xs f : List ℕ)
    → pos ≤ size
    → size ≤ length f
    → pos + length xs ≤ length f
    → size ≤ m
    → pos + length xs ≤ m
    → (m ≡ size) ⊎ (m ≡ pos + length xs)
    → take m (overwrite pos xs f) ≡ splice pos xs (take size f)
unfolding splice
take-overwrite zero size m [] f a b c d e g =
    let same : m ≡ size = omega arith in rw (overwrite-nil 0 f, same)
take-overwrite zero size m (x ∷ xs) [] a b c d e g = absurd (omega arith)
take-overwrite zero size zero (x ∷ xs) (y ∷ f) a b c d e g = absurd (omega arith)
take-overwrite zero zero (suc m) (x ∷ xs) (y ∷ f) a b c d e g = ap (◌∷◌ x) (
    take-overwrite zero zero m xs f (omega arith) (omega arith) (omega arith) (omega arith)
      (omega arith) (omega arith)
    ∙ ap (◌++◌ xs) (drop-nil (length xs) ∙ sym (drop-nil (suc (length xs)))))
take-overwrite zero (suc size) (suc m) (x ∷ xs) (y ∷ f) a b c d e g = ap (◌∷◌ x) (
    take-overwrite zero size m xs f (omega arith) (omega arith) (omega arith) (omega arith)
      (omega arith) (omega arith))
take-overwrite (suc i) zero m xs f a b c d e g = absurd (omega arith)
take-overwrite (suc i) (suc size) m xs [] a b c d e g = absurd (omega arith)
take-overwrite (suc i) (suc size) zero xs (y ∷ f) a b c d e g = absurd (omega arith)
take-overwrite (suc i) (suc size) (suc m) xs (y ∷ f) a b c d e g = ap (◌∷◌ y) (
    take-overwrite i size m xs f (omega arith) (omega arith) (omega arith) (omega arith)
      (omega arith) (omega arith))

-- A slice inside the first `size` elements.
pub take-drop-take :
    (pos n size : ℕ) (f : List ℕ)
    → pos + n ≤ size
    → take n (drop pos (take size f)) ≡ take n (drop pos f)
take-drop-take zero zero size f h = refl
take-drop-take zero (suc n) zero f h = absurd (omega arith)
take-drop-take zero (suc n) (suc size) [] h = refl
take-drop-take zero (suc n) (suc size) (y ∷ f) h =
    ap (◌∷◌ y) (take-drop-take zero n size f (omega arith))
take-drop-take (suc i) n zero f h = absurd (omega arith)
take-drop-take (suc i) n (suc size) [] h = refl
take-drop-take (suc i) n (suc size) (y ∷ f) h = take-drop-take i n size f (omega arith)

pub take-append_short : (n : ℕ) (xs ys : List ℕ) → n ≤ length xs → take n (xs ++ ys) ≡ take n xs
take-append_short zero xs ys h = refl
take-append_short (suc n) [] ys h = absurd (omega arith)
take-append_short (suc n) (x ∷ xs) ys h = ap (◌∷◌ x) (take-append_short n xs ys (omega arith))

pub flat-append : (ns ms : List (List ℕ)) → flat (ns ++ ms) ≡ flat ns ++ flat ms
unfolding flat
flat-append [] ms = refl
flat-append (n ∷ ns) ms =
    ap (λ t. n ++ t) (flat-append ns ms) ∙ sym (append_assoc n (flat ns) (flat ms))

pub length-flat :
    (base : ℕ) (ns : List (List ℕ)) → Uniform base ns → length (flat ns) ≡ length ns * base
unfolding flat
length-flat base [] u = omega arith
length-flat base (n ∷ ns) u = omega (arith, length-append n (flat ns), length-flat base ns u.1, u.0)

pub overwrite_behind :
    (i : ℕ) (xs n m : List ℕ) → overwrite (length n + i) xs (n ++ m) ≡ n ++ overwrite i xs m
overwrite_behind i xs [] m = rw zero-add
overwrite_behind i xs (y ∷ n) m = rw (suc-add (length n) i) (ap (◌∷◌ y) (overwrite_behind i xs n m))

pub drop_behind : (i : ℕ) (n m : List ℕ) → drop (length n + i) (n ++ m) ≡ drop i m
drop_behind i [] m = rw zero-add
drop_behind i (y ∷ n) m = rw (suc-add (length n) i) (drop_behind i n m)

pub Uniform-take : (base k : ℕ) (ns : List (List ℕ)) → Uniform base ns → Uniform base (take k ns)
Uniform-take base zero ns u = tt
Uniform-take base (suc k) [] u = tt
Uniform-take base (suc k) (n ∷ ns) u = (u.0, Uniform-take base k ns u.1)

pub Uniform-drop : (base k : ℕ) (ns : List (List ℕ)) → Uniform base ns → Uniform base (drop k ns)
Uniform-drop base zero ns u = u
Uniform-drop base (suc k) [] u = tt
Uniform-drop base (suc k) (n ∷ ns) u = Uniform-drop base k ns u.1

pub Uniform-append :
    (base : ℕ) (ns ms : List (List ℕ)) → Uniform base ns → Uniform base ms → Uniform base (ns ++ ms)
Uniform-append base [] ms h k = k
Uniform-append base (n ∷ ns) ms h k = (h.0, Uniform-append base ns ms h.1 k)
