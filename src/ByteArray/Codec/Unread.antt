-- ===== src/ByteArray/Codec/Unread.antt =====
-- The bytes that are still to be read, and what one read takes from them (src/bytearray.cpp).
use cool.Base.{
  ℕ, zero, suc, ◌+◌, ◌-◌, ◌≤◌, ◌<◌, ◌≡◌, refl, sym, ap, ◌∙◌, List, [], ◌∷◌, ◌++◌, arith, length,
  take, drop, length-append, length-take, length-drop,
}
use cool.ByteArray.{
  ByteArray, Outcome, ok, thrown, fault, ◌>>=◌, write, read, set_position, get_capacity,
}
use cool.ByteArray.Contents.{contents, splice, length-flat, drop-nil}
use cool.ByteArray.Flat.{flat}
use cool.ByteArray.Capacity.{IsValid, Enough}
use cool.ByteArray.Refine.{write-Advanced}
use cool.ByteArray.Read.{Consumed, read-Consumed}
use cool.ByteArray.Position.{set_position-Moved}
use native.Mathlib.Nat.{zero-add, suc-add}

unfoldable pub unread : ByteArray → List ℕ
unread b = drop b.pos (contents b)

pub length-contents : (b : ByteArray) → IsValid b → length (contents b) ≡ b.size
unfolding contents
length-contents b v =
    length-take b.size (flat b.nodes)
      (omega (arith, length-flat b.base_size b.nodes v.uniform, v.full, v.size-le-capacity))

pub length-unread : (b : ByteArray) → IsValid b → length (unread b) ≡ b.size - b.pos
unfolding unread
length-unread b v = omega (arith, length-drop b.pos (contents b), length-contents b v)

drop-splice :
    (pos : ℕ) (xs d : List ℕ)
    → pos ≤ length d
    → drop pos (splice pos xs d) ≡ xs ++ drop (length xs) (drop pos d)
unfolding splice
drop-splice zero xs d h = refl
drop-splice (suc i) xs [] h = absurd (omega arith)
drop-splice (suc i) xs (y ∷ d) h = drop-splice i xs d (omega arith)

length-splice :
    (pos : ℕ) (xs d : List ℕ) → pos ≤ length d → pos + length xs ≤ length (splice pos xs d)
unfolding splice
length-splice zero xs d h = omega (arith, length-append xs (drop (length xs) d))
length-splice (suc i) xs [] h = absurd (omega arith)
length-splice (suc i) xs (y ∷ d) h = omega (arith, length-splice i xs d (omega arith))

take-drop-prefix :
    (n : ℕ) (xs ys : List ℕ) → length xs ≡ n → (take n (xs ++ ys) ≡ xs) × (drop n (xs ++ ys) ≡ ys)
take-drop-prefix zero [] ys h = (refl, refl)
take-drop-prefix zero (x ∷ xs) ys h = absurd (omega arith)
take-drop-prefix (suc n) [] ys h = absurd (omega arith)
take-drop-prefix (suc n) (x ∷ xs) ys h =
    let (t, d) = take-drop-prefix n xs ys (omega arith) in (ap (◌∷◌ x) t, d)

drop-drop : (n m : ℕ) (d : List ℕ) → drop (n + m) d ≡ drop m (drop n d)
drop-drop zero m d = rw zero-add
drop-drop (suc n) m [] = rw (suc-add n m) (sym (drop-nil m))
drop-drop (suc n) m (y ∷ d) = rw (suc-add n m) (drop-drop n m d)

-- A read of as many bytes as `xs` has, where these come next.
pub read_next :
    (b : ByteArray) (xs rest : List ℕ)
    → IsValid b
    → 0 < length xs
    → unread b ≡ xs ++ rest
    → (b' : ByteArray) × (read b (length xs) ≡ ok (xs, b'))
      × Consumed b (length xs) b'
      × (unread b' ≡ rest)
read_next b xs rest v p e =
    let n = length xs in
    let left : n + length rest ≡ b.size - b.pos =
      omega (arith, length-unread b v, ap length e, length-append xs rest) in
    let (b', r, c) =
      read-Consumed b n v (omega (arith, v.size-le-capacity)) (omega (arith, v.pos-le-size)) in
    let (t, d) = take-drop-prefix n xs rest refl in
    let e' : drop b.pos (contents b) ≡ xs ++ rest = unfold unread in e in
    (
      b',
      r ∙ rw (e', t),
      c,
      unfold unread in
          rw (c.moved_pos, c.still_contents) (drop-drop b.pos n (contents b) ∙ rw (e', d)),
    )

pub Consumed-trans :
    (a b c : ByteArray) (n m : ℕ) → Consumed a n b → Consumed b m c → Consumed a (n + m) c
Consumed-trans a b c n m p q = record {
  still_valid = q.still_valid;
  still_base = q.still_base ∙ p.still_base;
  still_order = q.still_order ∙ p.still_order;
  moved_pos = omega (arith, q.moved_pos, p.moved_pos);
  still_contents = q.still_contents ∙ p.still_contents;
}

-- Bytes that were written come next once the position is set back.
pub write_and_return :
    (b : ByteArray) (xs : List ℕ)
    → IsValid b
    → Enough b.base_size (get_capacity b) (length xs)
    → (b2 : ByteArray) × ((write b xs >>= λ b1. set_position b1 b.pos) ≡ ok b2)
      × IsValid b2
      × (b2.little ≡ b.little)
      × (unread b2 ≡ xs ++ drop (length xs) (unread b))
write_and_return b xs v e =
    let (b1, w, a) = write-Advanced b xs v e in
    let inside : b.pos ≤ length (contents b) = omega (arith, length-contents b v, v.pos-le-size) in
    let longer : b.pos + length xs ≤ b1.size = omega (
      arith,
      length-contents b1 a.valid,
      ap length a.new_contents,
      length-splice b.pos xs (contents b) inside,
    ) in
    let (b2, s, m) = set_position-Moved b1 b.pos a.valid (omega arith) in
    (
      b2,
      rw w s,
      m.valid,
      m.order_kept ∙ a.new_order,
      unfold unread in
          rw (m.now_at, m.contents_kept, a.new_contents) (drop-splice b.pos xs (contents b) inside),
    )

-- A chain of calls whose first part is known to succeed.
pub then_ok {ℓ κ μ} :
    {A : Type ℓ} {B : Type κ} {C : Type μ} (m : Outcome A) (f : A → Outcome B) (g : B → Outcome C)
    {b : B}
    → (m >>= f) ≡ ok b
    → (m >>= λ a. f a >>= g) ≡ g b
then_ok (ok a) f g e = rw e
then_ok thrown f g e = cc
then_ok fault f g e = cc

pub then_map {ℓ κ μ ν} :
    {A : Type ℓ} {B : Type κ} {C : Type μ} {D : Type ν} (m : Outcome A) (f : A → Outcome B)
    (k : B → Outcome C) (g : C → Outcome D) {c : C}
    → (m >>= λ a. f a >>= k) ≡ ok c
    → (m >>= λ a. f a >>= λ b. k b >>= g) ≡ g c
then_map {B} {C} {D} (ok a) f k g {c} e = second (f a) e
  where
    second : (n : Outcome B) → (n >>= k) ≡ ok c → (n >>= λ b. k b >>= g) ≡ g c
    second (ok b) e = rw e
    second thrown e = cc
    second fault e = cc
then_map thrown f k g e = cc
then_map fault f k g e = cc
