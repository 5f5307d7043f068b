-- ===== src/ByteArray/Codec/Fixed.antt =====
-- The fixed-width integers, floats and counted strings of src/bytearray.cpp: round trips and the
-- bytes on the wire.
use mathlib.Core.List.{reverse, reverse-reverse}
use mathlib.Core.Path.{subst}
use cool.Base.{
  ℕ, ◌^◌, ◌<◌, ◌≡◌, sym, ap, ◌∙◌, List, ◌++◌, arith, length, drop, Bool, Bool-cases, inl, inr,
  if◌then◌else◌,
}
use cool.ByteArray.{ByteArray, ok, ◌>>=◌, write, read, set_position, get_capacity}
use cool.ByteArray.Capacity.{IsValid, Enough}
use cool.ByteArray.Read.{Consumed}
use cool.ByteArray.Codec.{
  Host, le_bytes, to_memory, byteswap, same_order, write_fixed, read_fixed, read_string,
}
use cool.ByteArray.Codec.Words.{
  byteswap-lt, byteswap-byteswap, of_memory-to_memory, length-to_memory, le_bytes-byteswap,
}
use cool.ByteArray.Codec.Unread.{unread, read_next, write_and_return, then_ok}

-- The bytes that write_fixed hands to write.
unfoldable pub wire : Host → Bool → ℕ → ℕ → List ℕ
wire h same w v = to_memory h w (if same then v else byteswap w v)

-- Where COOL_BYTE_ORDER is the order of the machine, the bytes on the wire are the little-endian ones
-- or their reverse, as m_endian says.
pub wire_order :
    (h : Host) (b : ByteArray) (w v : ℕ)
    → h.declared_little ≡ h.machine_little
    → wire h (same_order h b) w v ≡ (if b.little then le_bytes w v else reverse (le_bytes w v))
unfolding wire to_memory
wire_order h b w v e = elim (Bool-cases b.little) [
  | inl l ↦ elim (Bool-cases h.machine_little) [
    | inl m ↦ rw (l, e, m)
    | inr m ↦ rw (l, e, m) (rw le_bytes-byteswap (reverse-reverse (le_bytes w v)))
  ]
  | inr l ↦ elim (Bool-cases h.machine_little) [
    | inl m ↦ rw (l, e, m) (le_bytes-byteswap w v)
    | inr m ↦ rw (l, e, m)
  ]
]

-- A word that comes next on the wire is read back, by whatever host wrote it.
pub read_wire :
    (h : Host) (b : ByteArray) (w v : ℕ) (rest : List ℕ)
    → IsValid b
    → 0 < w
    → v < 256 ^ w
    → unread b ≡ wire h (same_order h b) w v ++ rest
    → (b' : ByteArray) × (read_fixed h b w ≡ ok (v, b')) × Consumed b w b' × (unread b' ≡ rest)
unfolding wire
read_wire h b w v rest valid p l e = elim (Bool-cases (same_order h b)) [
  | inl s ↦
      let bs = to_memory h w v in
      let n : length bs ≡ w = length-to_memory h w v in
      let (b', r, c, u) = read_next b bs rest valid (omega (arith, n)) (e ∙ rw s) in
      (
        b',
        unfold read_fixed in rw (ap (read b) (sym n) ∙ r, s, of_memory-to_memory h w v l),
        subst (λ (t : ℕ). Consumed b t b') n c,
        u,
      )
  | inr s ↦
      let bs = to_memory h w (byteswap w v) in
      let n : length bs ≡ w = length-to_memory h w (byteswap w v) in
      let (b', r, c, u) = read_next b bs rest valid (omega (arith, n)) (e ∙ rw s) in
      (
        b',
        unfold read_fixed in
            rw (
              ap (read b) (sym n) ∙ r,
              s,
              of_memory-to_memory h w (byteswap w v) (byteswap-lt w v),
              byteswap-byteswap w v l,
            ),
        subst (λ (t : ℕ). Consumed b t b') n c,
        u,
      )
]

length-wire : (h : Host) (same : Bool) (w v : ℕ) → length (wire h same w v) ≡ w
unfolding wire
length-wire h same w v = length-to_memory h w (if same then v else byteswap w v)

-- On a valid buffer with enough room, a number of `w` bytes, w not 0, that write_fixed writes is read
-- back by read_fixed after a return to its place, in either byte order and on any host.
pub fixed_round_trip :
    (h : Host) (b : ByteArray) (w v : ℕ)
    → IsValid b
    → 0 < w
    → v < 256 ^ w
    → Enough b.base_size (get_capacity b) w
    → (b' : ByteArray) × ((do
      b1 ← write_fixed h b w v
      b2 ← set_position b1 b.pos
      read_fixed h b2 w)
        ≡ ok (v, b'))
unfolding write_fixed wire
fixed_round_trip h b w v valid p l e =
    let bs = wire h (same_order h b) w v in
    let n : length bs ≡ w = length-wire h (same_order h b) w v in
    let (b2, s, v2, o, u) =
      write_and_return b bs valid (subst (Enough b.base_size (get_capacity b)) (sym n) e) in
    let u' : unread b2 ≡ wire h (same_order h b2) w v ++ drop (length bs) (unread b) = rw o u in
    let (b3, r, c, _) = read_wire h b2 w v _ v2 p l u' in
    (b3, then_ok (write b bs) (λ b1. set_position b1 b.pos) (λ b2'. read_fixed h b2' w) s ∙ r)

-- On a valid buffer, a non-empty string that comes next behind its count, in a width that holds its
-- length, is read back, and what follows it comes next.
pub read_string-wire :
    (h : Host) (b : ByteArray) (w : ℕ) (s rest : List ℕ)
    → IsValid b
    → 0 < w
    → 0 < length s
    → length s < 256 ^ w
    → unread b ≡ wire h (same_order h b) w (length s) ++ (s ++ rest)
    → (b' : ByteArray) × (read_string h b w ≡ ok (s, b')) × (unread b' ≡ rest)
unfolding read_string
read_string-wire h b w s rest v p q l e =
    let (b1, r, c, u) = read_wire h b w (length s) (s ++ rest) v p l e in
    let (b2, r', c', u') = read_next b1 s rest c.still_valid q u in (b2, rw (r, r'), u')
