-- ===== src/ByteArray/Refine.antt =====
-- The outcome of write of src/bytearray.cpp on every branch.
use cool.Base.{
  ℕ, ◌+◌, ◌*◌, ◌/◌, ◌%◌, ◌≤◌, ◌<◌, ◌≡◌, refl, sym, ap, ◌∙◌, inl, inr, List, [], ◌∷◌, arith, length,
  drop, length-drop, take-append-drop, Bool-cases, ltb, leb, leb→le, none,
}
use cool.ByteArray.{ByteArray, ok, fault, get_capacity, add_capacity, write, store}
use cool.ByteArray.Chain.{write_chain_short}
use cool.ByteArray.Contents.{contents, splice, Uniform-drop}
use cool.ByteArray.Capacity.{IsValid, Enough, add_capacity-IsValid, add_capacity-Enough}
use native.Mathlib.Nat.{div-add-mod', mod-lt, mul-div_cancel}
use cool.ByteArray.Write.{Keeps, Advanced, add_capacity-Keeps, cur_inside, store-Advanced}

splice-nil : (pos : ℕ) (d : List ℕ) → splice pos [] d ≡ d
unfolding splice
splice-nil pos d = take-append-drop pos d

pub advance_from :
    (b b1 b' : ByteArray) (xs : List ℕ) → Keeps b b1 → Advanced b1 xs b' → Advanced b xs b'
advance_from b b1 b' xs k a = record {
  valid = a.valid;
  new_base = a.new_base ∙ k.same_base;
  new_order = a.new_order ∙ k.same_order;
  new_pos = a.new_pos ∙ ap (λ (t : ℕ). t + length xs) k.same_pos;
  new_contents =
      a.new_contents
      ∙ ap (λ (t : ℕ). splice t xs (contents b1)) k.same_pos
      ∙ ap (splice b.pos xs) k.same_contents;
}

pub room_of : (b : ByteArray) (n : ℕ) → IsValid b → n ≤ get_capacity b → b.pos + n ≤ b.capacity
room_of b n v h = ground (arith, v.pos-le-size, v.size-le-capacity)

-- On a valid buffer for which addCapacity makes enough room, write succeeds: the buffer stays valid,
-- the position moves behind the bytes, and the contents are the old ones with the bytes spliced in
-- at the position.
pub write-Advanced :
    (b : ByteArray) (xs : List ℕ)
    → IsValid b
    → Enough b.base_size (get_capacity b) (length xs)
    → (b' : ByteArray) × (write b xs ≡ ok b') × Advanced b xs b'
unfolding write
write-Advanced b [] v e = (
  b,
  refl,
  record {
    valid = v;
    new_base = refl;
    new_order = refl;
    new_pos = omega arith;
    new_contents = sym (splice-nil b.pos (contents b));
  },
)
write-Advanced b (x ∷ xs) v e =
    let n = length (x ∷ xs) in
    let b1 = add_capacity b n in
    let v1 = add_capacity-IsValid b n v in
    let room = room_of b1 n v1 ((add_capacity-Enough b n v).1 e) in
    let (b', f, a) = store-Advanced b1 (x ∷ xs) v1 (omega arith) room in
    (b', f, advance_from b b1 b' (x ∷ xs) (add_capacity-Keeps b n v) a)

store_short :
    (b : ByteArray) (xs : List ℕ)
    → IsValid b
    → 0 < length xs
    → b.capacity < b.pos + length xs
    → store b xs ≡ fault
unfolding store
store_short b xs v p h = elim (Bool-cases (ltb b.pos b.capacity)) [
  | inl lt ↦
      let base = b.base_size in
      let k = b.pos / base in
      let (at, inside) = cur_inside b v (ground arith) in
      let split : k * base + b.pos % base ≡ b.pos = div-add-mod' b.pos base in
      let d : length b.nodes ≡ k + length (drop k b.nodes) = omega (arith, length-drop k b.nodes) in
      let e : length b.nodes * base ≡ k * base + length (drop k b.nodes) * base =
        ap (λ (t : ℕ). t * base) d ∙ omega arith in
      let none_left =
        write_chain_short base (drop k b.nodes) (b.pos % base) xs
          (Uniform-drop base k b.nodes v.uniform) (mod-lt b.pos v.positive) (omega (arith, v.full))
          p in
      rw at (rw none_left)
  | inr ge ↦
      let at_end : b.pos ≡ length b.nodes * b.base_size =
        ground (arith, v.full, v.pos-le-size, v.size-le-capacity) in
      let last : b.pos / b.base_size ≡ length b.nodes =
        ap (λ (t : ℕ). t / b.base_size) at_end ∙ mul-div_cancel (length b.nodes) v.positive in
      let null : b.cur ≡ none = v.at_cur ∙ rw last (ground arith) in rw null
]

-- On a valid buffer for which addCapacity does not make enough room, write follows a null node.
pub write_short :
    (b : ByteArray) (xs : List ℕ)
    → IsValid b
    → ¬ Enough b.base_size (get_capacity b) (length xs)
    → write b xs ≡ fault
unfolding write
write_short b [] v e = absurd (e (inl (omega arith)))
write_short b (x ∷ xs) v e =
    let n = length (x ∷ xs) in
    let b1 = add_capacity b n in
    let v1 = add_capacity-IsValid b n v in
    store_short b1 (x ∷ xs) v1 (omega arith) (elim (Bool-cases (leb n (get_capacity b1))) [
      | inl le ↦ absurd (e ((add_capacity-Enough b n v).0 (leb→le _ _ le)))
      | inr gt ↦ ground (arith, v1.pos-le-size, v1.size-le-capacity)
    ])

-- With nodes of one byte every write succeeds.
pub Enough-one : (old n : ℕ) → Enough 1 old n
Enough-one old n = inr (inl (omega arith))
