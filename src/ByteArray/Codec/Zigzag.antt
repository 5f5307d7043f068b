-- ===== src/ByteArray/Codec/Zigzag.antt =====
-- EncodeZigzap and DecodeZigzap of src/bytearray.cpp undo one another on every bit pattern.
use cool.Base.{
  ℕ, ◌+◌, ◌-◌, ◌*◌, ◌/◌, ◌%◌, ◌^◌, ◌<◌, ◌≤◌, ◌≡◌, ap, ◌∙◌, arith, Bool-cases, inl, inr, ltb,
}
use cool.Base.Bits.{bit_xor_ones, bit_xor-zero}
use cool.ByteArray.{ByteArray, ok, ◌>>=◌, set_position, get_capacity}
use cool.ByteArray.Capacity.{IsValid, Enough}
use cool.ByteArray.Codec.{
  encode_zigzap, decode_zigzap, write_uint32, write_uint64, read_uint32, read_uint64, write_int32,
  write_int64, read_int32, read_int64,
}
use cool.ByteArray.Codec.Unread.{then_map}
use cool.ByteArray.Codec.Varint.{uint32_round_trip, uint64_round_trip}
use native.Mathlib.Nat.{mod_self, sub-zero, mod-eq_of_lt}

decode_even : (w k : ℕ) → k < 2 ^ w → 0 < 2 ^ w → decode_zigzap w (k * 2) ≡ k
unfolding decode_zigzap
decode_even w k h p =
    let half : (k * 2) / 2 ≡ k = omega arith in
    let even : (k * 2) % 2 ≡ 0 = omega arith in
    let mask : (2 ^ w - (k * 2) % 2) % 2 ^ w ≡ 0 =
      ap (λ (t : ℕ). (2 ^ w - t) % 2 ^ w) even
      ∙ ap (λ (t : ℕ). t % 2 ^ w) (sub-zero (2 ^ w))
      ∙ mod_self (2 ^ w) in
    rw (half, mask) (bit_xor-zero w k h)

decode_odd : (w k : ℕ) → k < 2 ^ w → 1 < 2 ^ w → decode_zigzap w (k * 2 + 1) ≡ 2 ^ w - 1 - k
unfolding decode_zigzap
decode_odd w k h p =
    let half : (k * 2 + 1) / 2 ≡ k = omega arith in
    let odd : (k * 2 + 1) % 2 ≡ 1 = omega arith in
    let mask : (2 ^ w - (k * 2 + 1) % 2) % 2 ^ w ≡ 2 ^ w - 1 =
      ap (λ (t : ℕ). (2 ^ w - t) % 2 ^ w) odd ∙ mod-eq_of_lt (omega arith) in
    rw (half, mask) (bit_xor_ones w k h)

-- int32_t: every pattern, the most negative one too.
pub zigzag32 :
    (v : ℕ)
    → v < 2 ^ 32
    → (encode_zigzap 32 v < 2 ^ 32) × (decode_zigzap 32 (encode_zigzap 32 v) ≡ v)
unfolding encode_zigzap
zigzag32 v h = elim (Bool-cases (ltb v (2 ^ 31))) [
  | inl e ↦
      let lt : v < 2 ^ 31 = ground arith in
      let enc : v * 2 % 2 ^ 32 ≡ v * 2 = omega arith in
      rw (e, enc) (omega arith, decode_even 32 v h (omega arith))
  | inr e ↦
      let k = 2 ^ 32 - 1 - v in
      let enc : ((2 ^ 32 - v) * 2 % 2 ^ 32 + 2 ^ 32 - 1) % 2 ^ 32 ≡ k * 2 + 1 = ground arith in
      rw (e, enc) (ground arith, decode_odd 32 k (omega arith) (omega arith) ∙ omega arith)
]

-- int64_t: every pattern, the most negative one too.
pub zigzag64 :
    (v : ℕ)
    → v < 2 ^ 64
    → (encode_zigzap 64 v < 2 ^ 64) × (decode_zigzap 64 (encode_zigzap 64 v) ≡ v)
unfolding encode_zigzap
zigzag64 v h = elim (Bool-cases (ltb v (2 ^ 63))) [
  | inl e ↦
      let lt : v < 2 ^ 63 = ground arith in
      let enc : v * 2 % 2 ^ 64 ≡ v * 2 = omega arith in
      rw (e, enc) (omega arith, decode_even 64 v h (omega arith))
  | inr e ↦
      let k = 2 ^ 64 - 1 - v in
      let enc : ((2 ^ 64 - v) * 2 % 2 ^ 64 + 2 ^ 64 - 1) % 2 ^ 64 ≡ k * 2 + 1 = ground arith in
      rw (e, enc) (ground arith, decode_odd 64 k (omega arith) (omega arith) ∙ omega arith)
]

-- On a valid buffer with room for up to five bytes, write_int32 of a signed number in its 32-bit
-- pattern, a return to its place, and read_int32 give the number back.
pub int32_round_trip :
    (b : ByteArray) (v : ℕ)
    → IsValid b
    → v < 2 ^ 32
    → ((n : ℕ) → n ≤ 5 → Enough b.base_size (get_capacity b) n)
    → (b' : ByteArray) × ((do b1 ← write_int32 b v; b2 ← set_position b1 b.pos; read_int32 b2)
        ≡ ok (v, b'))
unfolding write_int32 read_int32
int32_round_trip b v valid h e =
    let (small, back) = zigzag32 v h in
    let (b', r) = uint32_round_trip b (encode_zigzap 32 v) valid small e in
    (
      b',
      then_map (write_uint32 b (encode_zigzap 32 v)) (λ b1. set_position b1 b.pos) read_uint32
            (λ (n, c). ok (decode_zigzap 32 n, c)) r
          ∙ ap (λ (n : ℕ). ok (n, b')) back,
    )

-- On a valid buffer with room for up to ten bytes, write_int64 of a signed number in its 64-bit
-- pattern, a return to its place, and read_int64 give the number back.
pub int64_round_trip :
    (b : ByteArray) (v : ℕ)
    → IsValid b
    → v < 2 ^ 64
    → ((n : ℕ) → n ≤ 10 → Enough b.base_size (get_capacity b) n)
    → (b' : ByteArray) × ((do b1 ← write_int64 b v; b2 ← set_position b1 b.pos; read_int64 b2)
        ≡ ok (v, b'))
unfolding write_int64 read_int64
int64_round_trip b v valid h e =
    let (small, back) = zigzag64 v h in
    let (b', r) = uint64_round_trip b (encode_zigzap 64 v) valid small e in
    (
      b',
      then_map (write_uint64 b (encode_zigzap 64 v)) (λ b1. set_position b1 b.pos) read_uint64
            (λ (n, c). ok (decode_zigzap 64 n, c)) r
          ∙ ap (λ (n : ℕ). ok (n, b')) back,
    )
