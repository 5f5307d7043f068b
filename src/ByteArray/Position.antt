-- ===== src/ByteArray/Position.antt =====
-- position(val) of src/bytearray.cpp: the walk from the root, and what it leaves.
use cool.Base.{
  ℕ, suc, ◌+◌, ◌-◌, ◌*◌, ◌/◌, ◌≤◌, ◌<◌, ◌≡◌, refl, sym, ap, ◌∙◌, inl, inr, List, [], ◌∷◌, arith,
  length, Bool-cases, ltb, ◌==◌, true, false, ltb→lt,
}
use cool.ByteArray.{ByteArray, ok, thrown, node_at, seek, set_position}
use cool.ByteArray.Flat.{Uniform}
use cool.ByteArray.Contents.{contents}
use cool.ByteArray.Capacity.{IsValid}
use native.Mathlib.Nat.{div-eq_of_lt, div_self}

seek_last : (base val : ℕ) → 0 < base → val < base → val / base ≡ 0
seek_last base val h k = div-eq_of_lt k

seek_next : (base val : ℕ) → 0 < base → base ≤ val → suc ((val - base) / base) ≡ val / base
seek_next base val h k =
    let e : base + (val - base) ≡ val = omega arith in
    let f : (base + (val - base)) / base ≡ suc ((val - base) / base) = grind arith in
    sym f ∙ ap (λ (t : ℕ). t / base) e

pub seek_lem :
    (base : ℕ) (ns : List (List ℕ)) (val i : ℕ)
    → 0 < base
    → Uniform base ns
    → 0 < length ns
    → val ≤ length ns * base
    → seek ns val i ≡ ok (i + val / base)
unfolding seek
seek_lem base [] val i h u p l = absurd (omega arith)
seek_lem base (n ∷ ns) val i h u p l = elim (Bool-cases (ltb base val)) [
  | inl e ↦
      let gt = ltb→lt base val e in
      let more : 0 < length ns = rest ns gt l in
      let ih = seek_lem base ns (val - base) (suc i) h u.1 more (omega arith) in
      let s : suc i + (val - base) / base ≡ i + val / base =
        omega (arith, seek_next base val h (omega arith)) in
      rw (u.0, e, ih, s)
  | inr e ↦
      rw (u.0, e)
        (elim (Bool-cases (val == base)) [
          | inl f ↦
              let same : val ≡ base = ground arith in
              let one : val / base ≡ 1 = ap (λ (t : ℕ). t / base) same ∙ div_self h in
              rw (f, one) (ap ok (omega arith))
          | inr f ↦
              let none_left : val / base ≡ 0 = seek_last base val h (ground arith) in
              rw (f, none_left) (ap ok (omega arith))
        ])
]
  where
    rest : (ns : List (List ℕ)) → base < val → val ≤ suc (length ns) * base → 0 < length ns
    rest [] gt l = absurd (omega arith)
    rest (n ∷ ns) gt l = omega arith

-- The buffer at another position inside what was written.
pub record Moved (b : ByteArray) (val : ℕ) (b' : ByteArray) : Type 0 where
  pub valid : IsValid b'
  pub base_kept : b'.base_size ≡ b.base_size
  pub order_kept : b'.little ≡ b.little
  pub capacity_kept : b'.capacity ≡ b.capacity
  pub size_kept : b'.size ≡ b.size
  pub now_at : b'.pos ≡ val
  pub contents_kept : contents b' ≡ contents b

-- On a valid buffer, position(val) inside the contents succeeds: the buffer stays valid, with the same
-- size, capacity and contents, at the new position.
pub set_position-Moved :
    (b : ByteArray) (val : ℕ)
    → IsValid b
    → val ≤ b.size
    → (b' : ByteArray) × (set_position b val ≡ ok b') × Moved b val b'
unfolding set_position
set_position-Moved b val v h =
    let inside : ltb b.capacity val ≡ false = ground (arith, v.size-le-capacity) in
    let s =
      seek_lem b.base_size b.nodes val 0 v.positive v.uniform v.rooted
        (omega (arith, v.full, v.size-le-capacity)) in
    let i : 0 + val / b.base_size ≡ val / b.base_size = omega arith in
    let n : ltb b.size val ≡ false = ground arith in
    (
      record b { pos = val; cur = node_at b.nodes (val / b.base_size) },
      rw (inside, s, i, n),
      record {
        valid = record {
          positive = v.positive;
          uniform = v.uniform;
          rooted = v.rooted;
          full = v.full;
          pos-le-size = h;
          size-le-capacity = v.size-le-capacity;
          at_cur = refl;
        };
        base_kept = refl;
        order_kept = refl;
        capacity_kept = refl;
        size_kept = refl;
        now_at = refl;
        contents_kept = unfold contents in refl;
      },
    )

-- Past the capacity it throws.
pub set_position_thrown : (b : ByteArray) (val : ℕ) → b.capacity < val → set_position b val ≡ thrown
unfolding set_position
set_position_thrown b val h = let t : ltb b.capacity val ≡ true = ground arith in rw t
