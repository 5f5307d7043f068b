-- ===== src/ByteArray/Flat.antt =====
-- A chain of nodes of src/bytearray.cpp as one flat sequence of bytes.
use cool.Base.{
  ℕ, zero, suc, ◌+◌, ◌-◌, ◌/◌, ◌%◌, ◌≤◌, ◌<◌, ◌≡◌, refl, sym, ap, ◌∙◌, List, [], ◌∷◌, ◌++◌, arith,
  length, take, drop, overwrite, All,
}
use native.Mathlib.Nat.{mul-add-div, div-add-mod, sub-zero, zero-add}

abbrev pub Uniform : ℕ → List (List ℕ) → Type 0
Uniform base = All (λ n. length n ≡ base)

unfoldable pub flat : List (List ℕ) → List ℕ
flat [] = []
flat (n ∷ ns) = n ++ flat ns

pub overwrite-nil : (i : ℕ) (m : List ℕ) → overwrite i [] m ≡ m
overwrite-nil zero [] = refl
overwrite-nil zero (z ∷ zs) = refl
overwrite-nil (suc i) [] = refl
overwrite-nil (suc i) (z ∷ zs) = ap (◌∷◌ z) (overwrite-nil i zs)

-- A write over the end of `n`, where `c` bytes of `n` are left, goes on at the start of `m`.
pub overwrite-append :
    (c i : ℕ) (xs n m : List ℕ)
    → c + i ≡ length n
    → overwrite i xs (n ++ m) ≡ overwrite i (take c xs) n ++ overwrite 0 (drop c xs) m
overwrite-append zero zero xs [] m h = refl
overwrite-append (suc c) i xs [] m h = absurd (omega arith)
overwrite-append zero (suc i) xs [] m h = absurd (omega arith)
overwrite-append zero zero xs (y ∷ n) m h = absurd (omega arith)
overwrite-append (suc c) zero [] (y ∷ n) m h = ap (λ t. (y ∷ n) ++ t) (sym (overwrite-nil 0 m))
overwrite-append (suc c) zero (x ∷ xs) (y ∷ n) m h =
    ap (◌∷◌ x) (overwrite-append c zero xs n m (omega arith))
overwrite-append c (suc i) xs (y ∷ n) m h = ap (◌∷◌ y) (overwrite-append c i xs n m (omega arith))

pub take_all : (n : ℕ) (xs : List ℕ) → length xs ≤ n → take n xs ≡ xs
take_all zero [] h = refl
take_all zero (x ∷ xs) h = absurd (omega arith)
take_all (suc n) [] h = refl
take_all (suc n) (x ∷ xs) h = ap (◌∷◌ x) (take_all n xs (omega arith))

pub drop_all : (n : ℕ) (xs : List ℕ) → length xs ≤ n → drop n xs ≡ []
drop_all zero [] h = refl
drop_all zero (x ∷ xs) h = absurd (omega arith)
drop_all (suc n) [] h = refl
drop_all (suc n) (x ∷ xs) h = drop_all n xs (omega arith)

-- take and drop over an append, where `c` elements are left of the first list.
pub take-drop-append :
    (c i s : ℕ) (n m : List ℕ)
    → c + i ≡ length n
    → c ≤ s
    → take s (drop i (n ++ m)) ≡ drop i n ++ take (s - c) m
take-drop-append zero zero s [] m h k = rw (sub-zero s)
take-drop-append (suc c) i s [] m h k = absurd (omega arith)
take-drop-append zero (suc i) s [] m h k = absurd (omega arith)
take-drop-append zero zero s (y ∷ n) m h k = absurd (omega arith)
take-drop-append (suc c) zero zero (y ∷ n) m h k = absurd (omega arith)
take-drop-append (suc c) zero (suc s) (y ∷ n) m h k =
    let e : suc s - suc c ≡ s - c = omega arith in
    rw e (ap (◌∷◌ y) (take-drop-append c zero s n m (omega arith) (omega arith)))
take-drop-append c (suc i) s (y ∷ n) m h k = take-drop-append c i s n m (omega arith) k

pub take-drop-append_short :
    (i s : ℕ) (n m : List ℕ) → i + s ≤ length n → take s (drop i (n ++ m)) ≡ take s (drop i n)
take-drop-append_short zero zero n m h = refl
take-drop-append_short zero (suc s) [] m h = absurd (omega arith)
take-drop-append_short zero (suc s) (y ∷ n) m h =
    ap (◌∷◌ y) (take-drop-append_short zero s n m (omega arith))
take-drop-append_short (suc i) s [] m h = absurd (omega arith)
take-drop-append_short (suc i) s (y ∷ n) m h = take-drop-append_short i s n m (omega arith)

pub length-overwrite : (i : ℕ) (xs ys : List ℕ) → length (overwrite i xs ys) ≡ length ys
length-overwrite i xs [] = refl
length-overwrite zero [] (y ∷ ys) = refl
length-overwrite zero (x ∷ xs) (y ∷ ys) = ap suc (length-overwrite zero xs ys)
length-overwrite (suc i) xs (y ∷ ys) = ap suc (length-overwrite i xs ys)

pub div_one_more : (base b : ℕ) → 0 < base → suc ((0 + b) / base) ≡ (base + b) / base
div_one_more base b h =
    let e : (base + b) / base ≡ suc (b / base) = grind arith in
    ap (λ (t : ℕ). suc (t / base)) (zero-add b) ∙ sym e

pub div_split : (p l base : ℕ) → 0 < base → p / base + (p % base + l) / base ≡ (p + l) / base
div_split p l base h =
    sym (mul-add-div h (p / base) (p % base + l))
    ∙ ap (λ (t : ℕ). t / base) (omega (arith, div-add-mod p base))
