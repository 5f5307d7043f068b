-- ===== src/ByteArray/Read.antt =====
-- read, position and to_string of src/bytearray.cpp against the abstract contents.
use cool.Base.{
  ℕ, ◌+◌, ◌*◌, ◌/◌, ◌%◌, ◌≤◌, ◌<◌, ◌≡◌, refl, sym, ap, ◌∙◌, List, ◌++◌, arith, length, take, drop,
  length-take, length-drop, take-append-drop, ltb, true, false, some, none,
}
use cool.ByteArray.{ByteArray, ok, thrown, fault, node_at}
use cool.ByteArray.Flat.{Uniform, flat, div_split}
use cool.ByteArray.Contents.{contents, flat-append, length-flat, Uniform-take, Uniform-drop}
use cool.ByteArray.Capacity.{IsValid}
use native.Mathlib.Nat.{div-add-mod', mod-lt, mul-div_cancel}
use cool.ByteArray.{read, read_chain, get_read_size}
use cool.ByteArray.Chain.{read_chain_lem}
use cool.ByteArray.Contents.{take-drop-take, drop_behind}
use cool.ByteArray.Write.{cur_inside, room_behind}

-- A slice from node `k`, offset `r` on, as a slice of the flat view.
flat_read :
    (base k r : ℕ) (ns : List (List ℕ))
    → Uniform base ns
    → k ≤ length ns
    → drop r (flat (drop k ns)) ≡ drop (k * base + r) (flat ns)
flat_read base k r ns u h =
    let e : length (flat (take k ns)) ≡ k * base =
      length-flat base (take k ns) (Uniform-take base k ns u)
      ∙ ap (λ (t : ℕ). t * base) (length-take k ns h) in
    let whole : flat ns ≡ flat (take k ns) ++ flat (drop k ns) =
      ap flat (sym (take-append-drop k ns)) ∙ flat-append (take k ns) (drop k ns) in
    sym (
      ap (λ t. drop (k * base + r) t) whole
      ∙ ap (λ (t : ℕ). drop (t + r) (flat (take k ns) ++ flat (drop k ns))) (sym e)
      ∙ drop_behind r (flat (take k ns)) (flat (drop k ns)))

-- The slice that read and read_from take from node m_cur.
pub slice_at_cur :
    (b : ByteArray) (n : ℕ)
    → IsValid b
    → b.pos < b.capacity
    → b.pos + n ≤ b.size
    → read_chain (drop (b.pos / b.base_size) b.nodes) (b.pos % b.base_size) n
      ≡ some (take n (drop b.pos (contents b)), (b.pos % b.base_size + n) / b.base_size)
unfolding contents
slice_at_cur b n v lt h =
    let base = b.base_size in
    let k = b.pos / base in
    let (at, inside) = cur_inside b v lt in
    let split : k * base + b.pos % base ≡ b.pos = div-add-mod' b.pos base in
    read_chain_lem base (drop k b.nodes) (b.pos % base) n (Uniform-drop base k b.nodes v.uniform)
      (mod-lt b.pos v.positive)
      (rw (length-drop k b.nodes) (
        room_behind base k (b.pos % base) n (length b.nodes) inside
          (omega (arith, v.full, v.size-le-capacity))))
    ∙ rw (flat_read base k (b.pos % base) b.nodes v.uniform (omega arith), split)
        (rw (take-drop-take b.pos n b.size (flat b.nodes) h))

-- What read leaves: the contents, and the position behind what was read.
pub record Consumed (b : ByteArray) (n : ℕ) (b' : ByteArray) : Type 0 where
  pub still_valid : IsValid b'
  pub still_base : b'.base_size ≡ b.base_size
  pub still_order : b'.little ≡ b.little
  pub moved_pos : b'.pos ≡ b.pos + n
  pub still_contents : contents b' ≡ contents b

read_steps :
    (b : ByteArray) (n : ℕ) (bs : List ℕ) (k moved : ℕ)
    → n ≤ get_read_size b
    → b.cur ≡ some k
    → read_chain (drop k b.nodes) (b.pos % b.base_size) n ≡ some (bs, moved)
    → read b n ≡ ok (bs, record b { pos = b.pos + n; cur = node_at b.nodes (k + moved) })
unfolding read
read_steps b n bs k moved h e f =
    let t : ltb (get_read_size b) n ≡ false = ground arith in rw (t, e) (rw f)

-- On a valid buffer whose position is inside the capacity and has `n` bytes behind it, read answers
-- the next `n` bytes of the contents and moves behind them.
pub read-Consumed :
    (b : ByteArray) (n : ℕ)
    → IsValid b
    → b.pos < b.capacity
    → b.pos + n ≤ b.size
    → (b' : ByteArray) × (read b n ≡ ok (take n (drop b.pos (contents b)), b')) × Consumed b n b'
read-Consumed b n v lt h =
    let (at, inside) = cur_inside b v lt in
    (
      record b {
        pos = b.pos + n;
        cur = node_at b.nodes (b.pos / b.base_size + (b.pos % b.base_size + n) / b.base_size);
      },
      read_steps b n _ _ _ (ground (arith, v.pos-le-size)) at (slice_at_cur b n v lt h),
      record {
        still_valid = record {
          positive = v.positive;
          uniform = v.uniform;
          rooted = v.rooted;
          full = v.full;
          pos-le-size = h;
          size-le-capacity = v.size-le-capacity;
          at_cur = ap (node_at b.nodes) (div_split b.pos n b.base_size v.positive);
        };
        still_base = refl;
        still_order = refl;
        moved_pos = refl;
        still_contents = unfold contents in refl;
      },
    )

-- read throws exactly when fewer than `n` bytes are left.
pub read_thrown : (b : ByteArray) (n : ℕ) → IsValid b → b.size < b.pos + n → read b n ≡ thrown
unfolding read
read_thrown b n v h = let t : ltb (get_read_size b) n ≡ true = ground (arith, v.pos-le-size) in rw t

-- On a valid buffer whose position is the end of the capacity, a read of no byte follows a null node.
pub read_at_end : (b : ByteArray) → IsValid b → b.pos ≡ b.capacity → read b 0 ≡ fault
unfolding read
read_at_end b v e =
    let last : b.pos / b.base_size ≡ length b.nodes =
      ap (λ (t : ℕ). t / b.base_size) (e ∙ v.full) ∙ mul-div_cancel (length b.nodes) v.positive in
    let null : b.cur ≡ none = v.at_cur ∙ rw last (ground arith) in
    let t : ltb (get_read_size b) 0 ≡ false = ground arith in rw (t, null)
