-- ===== src/ByteArray/Write.antt =====
-- write of src/bytearray.cpp refines a splice into the abstract contents.
use cool.Base.{
  ℕ, ◌+◌, ◌-◌, ◌*◌, ◌/◌, ◌%◌, ◌≤◌, ◌<◌, ◌≡◌, refl, sym, ap, ◌∙◌, inl, inr, List, ◌++◌, arith,
  length, take, drop, overwrite, length-append, length-take, length-drop, take-append-drop,
  Bool-cases, ltb, leb, ◌==◌, if◌then◌else◌, some,
}
use cool.ByteArray.{ByteArray, ok, node_at, get_capacity, add_capacity, grow, store, write_chain}
use cool.ByteArray.Flat.{Uniform, flat, div_split}
use cool.ByteArray.Chain.{Written, write_chain-Written}
use cool.ByteArray.Contents.{
  contents, splice, take-overwrite, take-append_short, flat-append, length-flat, overwrite_behind,
  Uniform-take, Uniform-drop, Uniform-append,
}
use cool.ByteArray.Capacity.{IsValid}
use native.Mathlib.Nat.{div-add-mod', mod-lt, div-lt_iff_lt-mul}

-- addCapacity changes neither the position nor the contents.
pub record Keeps (b b' : ByteArray) : Type 0 where
  pub same_base : b'.base_size ≡ b.base_size
  pub same_pos : b'.pos ≡ b.pos
  pub same_size : b'.size ≡ b.size
  pub same_order : b'.little ≡ b.little
  pub same_contents : contents b' ≡ contents b

grow-Keeps : (b : ByteArray) (count : ℕ) → IsValid b → Keeps b (grow b count)
unfolding grow contents
grow-Keeps b count v = record {
  same_base = refl;
  same_pos = refl;
  same_size = refl;
  same_order = refl;
  same_contents = rw flat-append (
      take-append_short b.size (flat b.nodes) _
        (omega (arith, length-flat b.base_size b.nodes v.uniform, v.full, v.size-le-capacity)));
}

pub add_capacity-Keeps : (b : ByteArray) (n : ℕ) → IsValid b → Keeps b (add_capacity b n)
unfolding add_capacity
add_capacity-Keeps b n v = elim (Bool-cases (n == 0)) [
  | inl e ↦ rw e same
  | inr e ↦ rw e (elim (Bool-cases (leb n (get_capacity b))) [
    | inl f ↦ rw f same
    | inr f ↦ rw f (grow-Keeps b _ v)
  ])
]
  where
    same : Keeps b b
    same = record {
      same_base = refl;
      same_pos = refl;
      same_size = refl;
      same_order = refl;
      same_contents = refl;
    }

-- A write at node `k`, offset `r`, as a write into the flat view.
pub flat_write :
    (base k r : ℕ) (ns ns' : List (List ℕ)) (xs : List ℕ) (moved : ℕ)
    → Uniform base ns
    → k ≤ length ns
    → Written base (drop k ns) r xs ns' moved
    → flat (take k ns ++ ns') ≡ overwrite (k * base + r) xs (flat ns)
flat_write base k r ns ns' xs moved u h w =
    let front = length-flat base (take k ns) (Uniform-take base k ns u) in
    let e : length (flat (take k ns)) ≡ k * base =
      front ∙ ap (λ (t : ℕ). t * base) (length-take k ns h) in
    let whole : flat ns ≡ flat (take k ns) ++ flat (drop k ns) =
      ap flat (sym (take-append-drop k ns)) ∙ flat-append (take k ns) (drop k ns) in
    rw (flat-append, w.bytes, whole, ← e)
      (sym (overwrite_behind r xs (flat (take k ns)) (flat (drop k ns))))

-- The buffer after `len` more bytes.
pub record Advanced (b : ByteArray) (xs : List ℕ) (b' : ByteArray) : Type 0 where
  pub valid : IsValid b'
  pub new_base : b'.base_size ≡ b.base_size
  pub new_order : b'.little ≡ b.little
  pub new_pos : b'.pos ≡ b.pos + length xs
  pub new_contents : contents b' ≡ splice b.pos xs (contents b)

-- Inside the capacity the loop finds its nodes.
pub cur_inside :
    (b : ByteArray)
    → IsValid b
    → b.pos < b.capacity
    → (b.cur ≡ some (b.pos / b.base_size)) × (b.pos / b.base_size < length b.nodes)
cur_inside b v h =
    let lt : b.pos / b.base_size < length b.nodes =
      (div-lt_iff_lt-mul v.positive).1 (omega (arith, v.full)) in
    (v.at_cur ∙ ground arith, lt)

-- The room behind node `k` at offset `r`, where the position is k * base + r.
pub room_behind :
    (base k r len total : ℕ)
    → k < total
    → k * base + r + len ≤ total * base
    → r + len ≤ (total - k) * base
room_behind base k r len total h l =
    let d : total ≡ k + (total - k) = omega arith in
    let e : total * base ≡ k * base + (total - k) * base =
      ap (λ (t : ℕ). t * base) d ∙ omega arith in
    omega arith

pub store_lem :
    (b : ByteArray) (xs : List ℕ) (k moved : ℕ) (ns : List (List ℕ))
    → b.cur ≡ some k
    → write_chain (drop k b.nodes) (b.pos % b.base_size) xs ≡ some (ns, moved)
    → store b xs
      ≡ ok (record b {
        nodes = take k b.nodes ++ ns;
        cur = node_at (take k b.nodes ++ ns) (k + moved);
        pos = b.pos + length xs;
        size = if ltb b.size (b.pos + length xs) then b.pos + length xs else b.size;
      })
unfolding store
store_lem b xs k moved ns e f = rw e (rw f)

pub store-Advanced :
    (b : ByteArray) (xs : List ℕ)
    → IsValid b
    → 0 < length xs
    → b.pos + length xs ≤ b.capacity
    → (b' : ByteArray) × (store b xs ≡ ok b') × Advanced b xs b'
store-Advanced b xs v p h =
    let base = b.base_size in
    let k = b.pos / base in
    let r = b.pos % base in
    let (at, inside) = cur_inside b v (omega arith) in
    let split : k * base + r ≡ b.pos = div-add-mod' b.pos base in
    let total : length b.nodes ≡ k + length (drop k b.nodes) =
      omega (arith, length-drop k b.nodes) in
    let (ns', moved, e, w) =
      write_chain-Written base (drop k b.nodes) r xs (Uniform-drop base k b.nodes v.uniform)
        (mod-lt b.pos v.positive)
        (rw (length-drop k b.nodes)
          (room_behind base k r (length xs) (length b.nodes) inside (omega (arith, v.full)))) in
    let nodes' = take k b.nodes ++ ns' in
    let count : length nodes' ≡ length b.nodes = omega (
      arith,
      length-append (take k b.nodes) ns',
      length-take k b.nodes (omega arith),
      length-drop k b.nodes,
      w.same_count,
    ) in
    let bytes : flat nodes' ≡ overwrite b.pos xs (flat b.nodes) =
      flat_write base k r b.nodes ns' xs moved v.uniform (omega arith) w
      ∙ ap (λ (t : ℕ). overwrite t xs (flat b.nodes)) split in
    let pos' = b.pos + length xs in
    let all = length-flat base b.nodes v.uniform in
    (
      record b {
        nodes = nodes';
        cur = node_at nodes' (k + moved);
        pos = pos';
        size = if ltb b.size pos' then pos' else b.size;
      },
      store_lem b xs k moved ns' at e,
      record {
        valid = record {
          positive = v.positive;
          uniform =
              Uniform-append base (take k b.nodes) ns' (Uniform-take base k b.nodes v.uniform)
                w.uniform;
          rooted = omega (arith, count, v.rooted);
          full = v.full ∙ ap (λ (t : ℕ). t * base) (sym count);
          pos-le-size = ground arith;
          size-le-capacity = ground (arith, v.size-le-capacity);
          at_cur =
              ap (node_at nodes')
                (ap (λ (t : ℕ). k + t) w.steps ∙ div_split b.pos (length xs) base v.positive);
        };
        new_base = refl;
        new_order = refl;
        new_pos = refl;
        new_contents =
            unfold contents in
            (ap (take (if ltb b.size pos' then pos' else b.size)) bytes
              ∙ take-overwrite b.pos b.size _ xs (flat b.nodes) v.pos-le-size
                  (omega (arith, all, v.full, v.size-le-capacity)) (omega (arith, all, v.full))
                  (ground arith) (ground arith) (ground arith));
      },
    )
