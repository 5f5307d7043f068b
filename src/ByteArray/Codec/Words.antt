-- ===== src/ByteArray/Codec/Words.antt =====
-- Words as bytes: byteswap and the memory order of src/endian.h undo one another.
use mathlib.Core.List.{reverse, reverse-cons, reverse-reverse}
use cool.Base.{
  ℕ, zero, suc, ◌+◌, ◌*◌, ◌/◌, ◌%◌, ◌^◌, ◌<◌, ◌≡◌, refl, sym, ap, ◌∙◌, List, [], ◌∷◌, ◌++◌, arith,
  length, length-append, All, Bool-cases, inl, inr,
}
use cool.ByteArray.Codec.{Host, le_bytes, le_value, to_memory, of_memory, byteswap}
use native.Mathlib.Nat.{pow-suc}

pub length-le_bytes : (w v : ℕ) → length (le_bytes w v) ≡ w
unfolding le_bytes
length-le_bytes zero v = refl
length-le_bytes (suc w) v = ap suc (length-le_bytes w (v / 256))

pub le_value-le_bytes : (w v : ℕ) → v < 256 ^ w → le_value (le_bytes w v) ≡ v
unfolding le_bytes le_value
le_value-le_bytes zero v h = omega arith
le_value-le_bytes (suc w) v h =
    omega (arith, le_value-le_bytes w (v / 256) (omega (arith, pow-suc 256 w)))

abbrev pub Bytes : List ℕ → Type 0
Bytes = All (λ x. x < 256)

pub le_bytes-le_value : (xs : List ℕ) → Bytes xs → le_bytes (length xs) (le_value xs) ≡ xs
unfolding le_bytes le_value
le_bytes-le_value [] h = refl
le_bytes-le_value (x ∷ xs) h =
    let low : (x + 256 * le_value xs) % 256 ≡ x = omega (arith, h.0) in
    let high : (x + 256 * le_value xs) / 256 ≡ le_value xs = omega (arith, h.0) in
    rw (low, high) (ap (◌∷◌ x) (le_bytes-le_value xs h.1))

le_bytes-Bytes : (w v : ℕ) → Bytes (le_bytes w v)
unfolding le_bytes
le_bytes-Bytes zero v = tt
le_bytes-Bytes (suc w) v = (omega arith, le_bytes-Bytes w (v / 256))

Bytes-append : (xs ys : List ℕ) → Bytes xs → Bytes ys → Bytes (xs ++ ys)
Bytes-append [] ys h k = k
Bytes-append (x ∷ xs) ys h k = (h.0, Bytes-append xs ys h.1 k)

Bytes-reverse : (xs : List ℕ) → Bytes xs → Bytes (reverse xs)
Bytes-reverse [] h = tt
Bytes-reverse (x ∷ xs) h =
    rw reverse-cons (Bytes-append (reverse xs) (x ∷ []) (Bytes-reverse xs h.1) (h.0, tt))

pub length-reverse : (xs : List ℕ) → length (reverse xs) ≡ length xs
length-reverse [] = refl
length-reverse (x ∷ xs) =
    ap length (reverse-cons x xs)
    ∙ omega (arith, length-append (reverse xs) (x ∷ []), length-reverse xs)

le_value-lt : (xs : List ℕ) → Bytes xs → le_value xs < 256 ^ length xs
unfolding le_value
le_value-lt [] h = omega arith
le_value-lt (x ∷ xs) h = omega (arith, h.0, le_value-lt xs h.1, pow-suc 256 (length xs))

-- The bytes of a swapped word are the reversed bytes.
pub le_bytes-byteswap : (w v : ℕ) → le_bytes w (byteswap w v) ≡ reverse (le_bytes w v)
unfolding byteswap
le_bytes-byteswap w v =
    let xs = reverse (le_bytes w v) in
    let n : length xs ≡ w = length-reverse (le_bytes w v) ∙ length-le_bytes w v in
    ap (λ (t : ℕ). le_bytes t (le_value xs)) (sym n)
    ∙ le_bytes-le_value xs (Bytes-reverse (le_bytes w v) (le_bytes-Bytes w v))

pub byteswap-lt : (w v : ℕ) → byteswap w v < 256 ^ w
unfolding byteswap
byteswap-lt w v =
    let xs = reverse (le_bytes w v) in
    let n : length xs ≡ w = length-reverse (le_bytes w v) ∙ length-le_bytes w v in
    rw n at (le_value-lt xs (Bytes-reverse (le_bytes w v) (le_bytes-Bytes w v)))

-- Swapping twice gives the word back.
pub byteswap-byteswap : (w v : ℕ) → v < 256 ^ w → byteswap w (byteswap w v) ≡ v
unfolding byteswap
byteswap-byteswap w v h =
    ap (λ xs. le_value (reverse xs)) (le_bytes-byteswap w v)
    ∙ ap le_value (reverse-reverse (le_bytes w v))
    ∙ le_value-le_bytes w v h

pub of_memory-to_memory : (h : Host) (w v : ℕ) → v < 256 ^ w → of_memory h (to_memory h w v) ≡ v
unfolding of_memory to_memory
of_memory-to_memory h w v l = elim (Bool-cases h.machine_little) [
  | inl e ↦ rw e (le_value-le_bytes w v l)
  | inr e ↦ rw e (ap le_value (reverse-reverse (le_bytes w v)) ∙ le_value-le_bytes w v l)
]

pub length-to_memory : (h : Host) (w v : ℕ) → length (to_memory h w v) ≡ w
unfolding to_memory
length-to_memory h w v = elim (Bool-cases h.machine_little) [
  | inl e ↦ rw e (length-le_bytes w v)
  | inr e ↦ rw e (length-reverse (le_bytes w v) ∙ length-le_bytes w v)
]
