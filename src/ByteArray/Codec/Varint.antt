-- ===== src/ByteArray/Codec/Varint.antt =====
-- The variable-length integers of src/bytearray.cpp: the buffer of the writer is large enough, and
-- the reader gives the number back.
use Prim.Native.Nat.{bit_or}
use cool.Base.{
  ℕ, zero, suc, ◌+◌, ◌*◌, ◌/◌, ◌%◌, ◌^◌, ◌≤◌, ◌<◌, ◌≡◌, sym, ap, ◌∙◌, List, [], ◌∷◌, ◌++◌, some,
  arith, length, drop, Bool-cases, inl, inr, ltb, true, false, Option-cases,
}
use cool.Base.Bits.{bit_or_disjoint}
use cool.ByteArray.{ByteArray, ok, ◌>>=◌, write, set_position, get_capacity}
use cool.ByteArray.Capacity.{IsValid, Enough}
use cool.ByteArray.Read.{Consumed}
use cool.ByteArray.Codec.{
  varint, read_fint8, read_groups, read_uint32, read_uint64, write_uint32, write_uint64,
}
use cool.ByteArray.Codec.Unread.{unread, read_next, write_and_return, then_ok}
use native.Mathlib.Nat.{pow-suc, mod-eq_of_lt, div-add-mod}
use native.Mathlib.Numerals.{towards_suc}

-- `slots` bytes hold any number below 128 ^ slots: the loop stays inside its buffer.
pub varint_total :
    (slots v : ℕ)
    → 0 < slots
    → v < 128 ^ slots
    → (bs : List ℕ) × (varint slots v ≡ some bs) × (0 < length bs) × (length bs ≤ slots)
unfolding varint
varint_total zero v p h = absurd (omega arith)
varint_total (suc zero) v p h =
    let small : ltb v 128 ≡ true = ground arith in (v ∷ [], rw small, omega arith, omega arith)
varint_total (suc (suc s)) v p h = elim (Bool-cases (ltb v 128)) [
  | inl e ↦ (v ∷ [], rw e, omega arith, omega arith)
  | inr e ↦
      let (bs, f, q, l) =
        varint_total (suc s) (v / 128) (omega arith) (omega (arith, pow-suc 128 (suc s))) in
      ((v % 128 + 128) ∷ bs, rw (e, f), omega arith, omega arith)
]

read_one :
    (b : ByteArray) (x : ℕ) (rest : List ℕ)
    → IsValid b
    → unread b ≡ x ∷ rest
    → (b' : ByteArray) × (read_fint8 b ≡ ok (x, b')) × Consumed b 1 b' × (unread b' ≡ rest)
unfolding read_fint8
read_one b x rest v e =
    let (b', r, c, u) = read_next b (x ∷ []) rest v (omega arith) e in (b', rw r, c, u)

shift_seven : (i : ℕ) → 2 ^ (i + 7) ≡ 128 * 2 ^ i
shift_seven i = simp towards_suc (
    omega (
      arith,
      pow-suc 2 i,
      pow-suc 2 (suc i),
      pow-suc 2 (suc (suc i)),
      pow-suc 2 (suc (suc (suc i))),
      pow-suc 2 (suc (suc (suc (suc i)))),
      pow-suc 2 (suc (suc (suc (suc (suc i))))),
      pow-suc 2 (suc (suc (suc (suc (suc (suc i)))))),
    ))

-- The group of seven bits is a sum with what was read before.
group :
    (w i res x : ℕ)
    → res < 2 ^ i
    → x * 2 ^ i < 2 ^ w
    → bit_or res (x * 2 ^ i % 2 ^ w) ≡ res + x * 2 ^ i
group w i res x h l = rw (mod-eq_of_lt l) (bit_or_disjoint i res x h)

split_seven : (v i : ℕ) → v * 2 ^ i ≡ v % 128 * 2 ^ i + v / 128 * 2 ^ (i + 7)
split_seven v i = omega (
  arith,
  ap (λ (t : ℕ). t * 2 ^ i) (div-add-mod v 128),
  ap (λ (t : ℕ). v / 128 * t) (shift_seven i),
)

grown : (v i res : ℕ) → res < 2 ^ i → res + v % 128 * 2 ^ i < 2 ^ (i + 7)
grown v i res h =
    let low : v % 128 ≤ 127 = omega arith in
    let prod : v % 128 * 2 ^ i ≤ 127 * 2 ^ i = grind arith in omega (arith, shift_seven i)

groups_last :
    (w s : ℕ) (b b' : ByteArray) (i res x : ℕ)
    → read_fint8 b ≡ ok (x, b')
    → ltb x 128 ≡ true
    → read_groups w (suc s) b i res ≡ ok (bit_or res (x * 2 ^ i % 2 ^ w), b')
unfolding read_groups
groups_last w s b b' i res x e t = rw (e, t)

groups_more :
    (w s : ℕ) (b b' : ByteArray) (i res x : ℕ)
    → read_fint8 b ≡ ok (x, b')
    → ltb x 128 ≡ false
    → read_groups w (suc s) b i res
      ≡ read_groups w s b' (i + 7) (bit_or res (x % 128 * 2 ^ i % 2 ^ w))
unfolding read_groups
groups_more w s b b' i res x e t = rw (e, t)

-- What the reader does on the bytes of a number that come next.
pub read_groups_lem :
    (w slots : ℕ) (b : ByteArray) (i res v : ℕ) (bs rest : List ℕ)
    → IsValid b
    → varint slots v ≡ some bs
    → unread b ≡ bs ++ rest
    → res < 2 ^ i
    → res + v * 2 ^ i < 2 ^ w
    → (b' : ByteArray) × (read_groups w slots b i res ≡ ok (res + v * 2 ^ i, b'))
      × IsValid b'
      × (unread b' ≡ rest)
unfolding varint
read_groups_lem w zero b i res v bs rest valid e u h l = cc
read_groups_lem w (suc s) b i res v bs rest valid e u h l = elim (Bool-cases (ltb v 128)) [
  | inl t ↦
      let one : v ∷ [] ≡ bs = ground arith in
      let (b', r, c, u') = read_one b v rest valid (u ∙ ap (λ x. x ++ rest) (sym one)) in
      (
        b',
        groups_last w s b b' i res v r t
            ∙ ap (λ (n : ℕ). ok (n, b')) (group w i res v h (omega arith)),
        c.still_valid,
        u',
      )
  | inr t ↦ elim (Option-cases (varint s (v / 128))) [
    | inl n ↦ ground arith
    | inr (bs', n) ↦
        let more : (v % 128 + 128) ∷ bs' ≡ bs = ground arith in
        let (b1, r, c, u1) =
          read_one b (v % 128 + 128) (bs' ++ rest) valid (u ∙ ap (λ y. y ++ rest) (sym more)) in
        let big : ltb (v % 128 + 128) 128 ≡ false = ground arith in
        let low : (v % 128 + 128) % 128 ≡ v % 128 = omega arith in
        let sum = split_seven v i in
        let acc : bit_or res ((v % 128 + 128) % 128 * 2 ^ i % 2 ^ w) ≡ res + v % 128 * 2 ^ i =
          ap (λ (n : ℕ). bit_or res (n * 2 ^ i % 2 ^ w)) low
          ∙ group w i res (v % 128) h (omega arith) in
        let (b2, r2, v2, u2) =
          read_groups_lem w s b1 (i + 7) (res + v % 128 * 2 ^ i) (v / 128) bs' rest c.still_valid n
            u1 (grown v i res h) (omega arith) in
        let total : res + v % 128 * 2 ^ i + v / 128 * 2 ^ (i + 7) ≡ res + v * 2 ^ i = omega arith in
        (
          b2,
          groups_more w s b b1 i res (v % 128 + 128) r big
              ∙ ap (read_groups w s b1 (i + 7)) acc
              ∙ r2
              ∙ ap (λ (n : ℕ). ok (n, b2)) total,
          v2,
          u2,
        )
  ]
]

-- On a valid buffer with room for up to five bytes, write_uint32 of a 32-bit number, a return to its
-- place, and read_uint32 give the number back.
pub uint32_round_trip :
    (b : ByteArray) (v : ℕ)
    → IsValid b
    → v < 2 ^ 32
    → ((n : ℕ) → n ≤ 5 → Enough b.base_size (get_capacity b) n)
    → (b' : ByteArray) × ((do b1 ← write_uint32 b v; b2 ← set_position b1 b.pos; read_uint32 b2)
        ≡ ok (v, b'))
unfolding write_uint32 read_uint32
uint32_round_trip b v valid h e =
    let (bs, f, p, l) = varint_total 5 v (omega arith) (omega arith) in
    let (b2, s, v2, o, u) = write_and_return b bs valid (e (length bs) l) in
    let (b3, r, _, _) =
      read_groups_lem 32 5 b2 0 0 v bs (drop (length bs) (unread b)) v2 f u (omega arith)
        (omega arith) in
    let exact : 0 + v * 2 ^ 0 ≡ v = omega arith in
    (
      b3,
      rw f (
          then_ok (write b bs) (λ b1. set_position b1 b.pos) read_uint32 s
          ∙ r
          ∙ ap (λ (n : ℕ). ok (n, b3)) exact),
    )

-- On a valid buffer with room for up to ten bytes, write_uint64 of a 64-bit number, a return to its
-- place, and read_uint64 give the number back.
pub uint64_round_trip :
    (b : ByteArray) (v : ℕ)
    → IsValid b
    → v < 2 ^ 64
    → ((n : ℕ) → n ≤ 10 → Enough b.base_size (get_capacity b) n)
    → (b' : ByteArray) × ((do b1 ← write_uint64 b v; b2 ← set_position b1 b.pos; read_uint64 b2)
        ≡ ok (v, b'))
unfolding write_uint64 read_uint64
uint64_round_trip b v valid h e =
    let (bs, f, p, l) = varint_total 10 v (omega arith) (omega arith) in
    let (b2, s, v2, o, u) = write_and_return b bs valid (e (length bs) l) in
    let (b3, r, _, _) =
      read_groups_lem 64 10 b2 0 0 v bs (drop (length bs) (unread b)) v2 f u (omega arith)
        (omega arith) in
    let exact : 0 + v * 2 ^ 0 ≡ v = omega arith in
    (
      b3,
      rw f (
          then_ok (write b bs) (λ b1. set_position b1 b.pos) read_uint64 s
          ∙ r
          ∙ ap (λ (n : ℕ). ok (n, b3)) exact),
    )
