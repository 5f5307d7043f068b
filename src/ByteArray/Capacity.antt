-- ===== src/ByteArray/Capacity.antt =====
-- The invariant of the buffer of src/bytearray.cpp, and when addCapacity makes enough room.
use cool.Base.{
  ℕ, zero, suc, ◌+◌, ◌-◌, ◌*◌, ◌/◌, ◌%◌, ◌≤◌, ◌<◌, ◌≡◌, refl, sym, ap, ◌∙◌, ◌⊎◌, ◌↔◌, List, [], ◌∷◌,
  ◌++◌, arith, length, replicate, length-append, length-replicate, leb, ltb, ◌==◌, Bool-cases, inl,
  inr, leb→le, ltb→lt,
}
use cool.ByteArray.{
  ByteArray, new, new_node, node_at, node_count, get_capacity, add_capacity, clear, grow,
}
use native.Mathlib.Nat.{mul-div_cancel, div-add-mod', mod-lt, div-lt_iff_lt-mul}
use cool.ByteArray.Flat.{Uniform}

-- m_cur is the node of the position, or null at the very end of the capacity.
pub record IsValid (b : ByteArray) : Type 0 where
  pub positive : 0 < b.base_size
  pub uniform : Uniform b.base_size b.nodes
  pub rooted : 0 < length b.nodes
  pub full : b.capacity ≡ length b.nodes * b.base_size
  pub pos-le-size : b.pos ≤ b.size
  pub size-le-capacity : b.size ≤ b.capacity
  pub at_cur : b.cur ≡ node_at b.nodes (b.pos / b.base_size)

Uniform-replicate : (base k : ℕ) → Uniform base (replicate k (new_node base))
Uniform-replicate base zero = tt
Uniform-replicate base (suc k) = (length-replicate base 0, Uniform-replicate base k)

Uniform-append :
    (base : ℕ) (ns ms : List (List ℕ)) → Uniform base ns → Uniform base ms → Uniform base (ns ++ ms)
Uniform-append base [] ms h k = k
Uniform-append base (n ∷ ns) ms h k = (h.0, Uniform-append base ns ms h.1 k)

pub new-IsValid : (base : ℕ) → 0 < base → IsValid (new base)
unfolding new
new-IsValid base h = record {
  positive = h;
  uniform = (length-replicate base 0, tt);
  rooted = omega arith;
  full = omega arith;
  pos-le-size = omega arith;
  size-le-capacity = omega arith;
  at_cur = let e : 0 / base ≡ 0 = grind arith in rw e;
}

pub clear-IsValid : (b : ByteArray) → IsValid b → IsValid (clear b)
unfolding clear
clear-IsValid b v = first b.nodes refl
  where
    first : (ns : List (List ℕ)) → b.nodes ≡ ns → IsValid (clear b)
    first [] e = absurd (omega (arith, v.rooted, ap length e))
    first (n ∷ ns) e =
        let u : Uniform b.base_size (n ∷ ns) = rw e at v.uniform in
        rw e (record {
          positive = v.positive;
          uniform = (u.0, tt);
          rooted = omega arith;
          full = omega arith;
          pos-le-size = omega arith;
          size-le-capacity = omega arith;
          at_cur = let z : 0 / b.base_size ≡ 0 = grind (arith, v.positive) in rw z;
        })

node_at-append :
    (ns ms : List (List ℕ)) (i : ℕ) → i < length ns → node_at (ns ++ ms) i ≡ node_at ns i
node_at-append ns ms i h = ground (arith, length-append ns ms)

grow_cur :
    (b : ByteArray) (count : ℕ)
    → IsValid b
    → (grow b count).cur ≡ node_at (grow b count).nodes (b.pos / b.base_size)
unfolding grow
grow_cur b count v = elim (Bool-cases (get_capacity b == 0)) [
  | inl e ↦
      let at_end : b.pos ≡ length b.nodes * b.base_size =
        ground (arith, v.full, v.pos-le-size, v.size-le-capacity) in
      let last : b.pos / b.base_size ≡ length b.nodes =
        ap (λ (t : ℕ). t / b.base_size) at_end ∙ mul-div_cancel (length b.nodes) v.positive in
      rw (e, last)
        (ground (
          arith,
          length-append b.nodes (replicate count (new_node b.base_size)),
          length-replicate count (new_node b.base_size),
        ))
  | inr e ↦
      let inside : b.pos < length b.nodes * b.base_size =
        ground (arith, v.full, v.pos-le-size, v.size-le-capacity) in
      rw e (v.at_cur ∙ sym (node_at-append b.nodes _ _ ((div-lt_iff_lt-mul v.positive).1 inside)))
]

pub grow-IsValid : (b : ByteArray) (count : ℕ) → IsValid b → IsValid (grow b count)
grow-IsValid b count v =
    unfold grow in
    record {
      positive = v.positive;
      uniform =
          Uniform-append b.base_size b.nodes _ v.uniform (Uniform-replicate b.base_size count);
      rooted =
          omega (arith, v.rooted, length-append b.nodes (replicate count (new_node b.base_size)));
      full = rw (length-append, length-replicate) (omega (arith, v.full));
      pos-le-size = v.pos-le-size;
      size-le-capacity = omega (arith, v.size-le-capacity);
      at_cur = grow_cur b count v;
    }

pub add_capacity-IsValid : (b : ByteArray) (n : ℕ) → IsValid b → IsValid (add_capacity b n)
unfolding add_capacity
add_capacity-IsValid b n v = elim (Bool-cases (n == 0)) [
  | inl e ↦ rw e v
  | inr e ↦ rw e (elim (Bool-cases (leb n (get_capacity b))) [
    | inl f ↦ rw f v
    | inr f ↦ rw f (grow-IsValid b _ v)
  ])
]

-- The request is met from what is free, or the rest behind it is a whole number of nodes, or the
-- broken node left over is larger than what is free.
abbrev pub Enough : ℕ → ℕ → ℕ → Type 0
Enough base old n = (n ≤ old) ⊎ (((n - old) % base ≡ 0) ⊎ (old < (n - old) % base))

-- Room for `k` more bytes, in whole nodes, by the count of addCapacity.
node_count_room :
    (base old k : ℕ)
    → 0 < base
    → (k ≤ node_count base old k * base) ↔ ((k % base ≡ 0) ⊎ (old < k % base))
node_count_room base old k h = elim (Bool-cases (ltb old (k % base))) [
  | inl e ↦ ((λ _. inr (ltb→lt _ _ e)), λ _. rw e (omega (arith, div-add-mod' k base, mod-lt k h)))
  | inr e ↦
      let short : k % base ≤ old = ground arith in
      (
        (λ r. inl (omega (arith, div-add-mod' k base, rw e at r))),
        λ r. rw e (omega (arith, div-add-mod' k base, r)),
      )
]

grow_capacity :
    (b : ByteArray) (count : ℕ)
    → IsValid b
    → get_capacity (grow b count) ≡ get_capacity b + count * b.base_size
unfolding grow
grow_capacity b count v = ground (arith, v.pos-le-size, v.size-le-capacity)

-- On a valid buffer, addCapacity makes room for `n` bytes exactly when they fit already, or the rest
-- is a whole number of nodes, or the broken node left over is larger than what was free.
pub add_capacity-Enough :
    (b : ByteArray) (n : ℕ)
    → IsValid b
    → (n ≤ get_capacity (add_capacity b n)) ↔ Enough b.base_size (get_capacity b) n
unfolding add_capacity
add_capacity-Enough b n v = elim (Bool-cases (n == 0)) [
  | inl e ↦ rw e ((λ r. inl r), λ _. ground arith)
  | inr e ↦ rw e (elim (Bool-cases (leb n (get_capacity b))) [
    | inl f ↦ rw f ((λ r. inl r), λ _. leb→le _ _ f)
    | inr f ↦
        let old = get_capacity b in
        let more : old < n = ground arith in
        let room = node_count_room b.base_size old (n - old) v.positive in
        let free = grow_capacity b (node_count b.base_size old (n - old)) v in
        rw (f, free)
          (
            (λ r. inr (room.0 (omega arith))),
            λ r. elim r [ inl le ↦ absurd (omega arith) | inr s ↦ let t = room.1 s in omega arith ],
          )
  ])
]
