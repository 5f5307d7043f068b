-- ===== src/ByteArray/Codec.antt =====
-- The typed reads and writes of src/bytearray.cpp, with src/endian.h. A value of an integer type is
-- its bit pattern, a number below 2 ^ (8 * width); a char is a byte.
pub mod Words
pub mod Unread
pub mod Fixed
pub mod Varint
pub mod Zigzag
use Prim.Native.Nat.{bit_or, bit_xor}
use mathlib.Core.List.{reverse}
use cool.Base.{
  ℕ, zero, suc, ◌+◌, ◌-◌, ◌/◌, ◌%◌, ◌*◌, ◌^◌, Bool, true, false, List, [], ◌∷◌, ◌++◌, Option, none,
  some, length, ltb, if◌then◌else◌,
}
use cool.ByteArray.{ByteArray, Outcome, ok, thrown, fault, ◌>>=◌, deref, write, read}

-- COOL_BYTE_ORDER, as the preprocessor set it, and the order in which the machine stores words.
pub record Host : Type 0 where
  pub declared_little : Bool
  pub machine_little : Bool

unfoldable pub le_bytes : ℕ → ℕ → List ℕ
le_bytes zero v = []
le_bytes (suc w) v = (v % 256) ∷ le_bytes w (v / 256)

unfoldable pub le_value : List ℕ → ℕ
le_value [] = 0
le_value (x ∷ xs) = x + 256 * le_value xs

-- The bytes of a word in memory, and the word of such bytes.
unfoldable pub to_memory : Host → ℕ → ℕ → List ℕ
to_memory h w v = if h.machine_little then le_bytes w v else reverse (le_bytes w v)

unfoldable pub of_memory : Host → List ℕ → ℕ
of_memory h xs = if h.machine_little then le_value xs else le_value (reverse xs)

-- byteswap of `w` bytes: bswap_16, bswap_32 and bswap_64.
unfoldable pub byteswap : ℕ → ℕ → ℕ
byteswap w v = le_value (reverse (le_bytes w v))

-- `m_endian == COOL_BYTE_ORDER`
abbrev pub same_order : Host → ByteArray → Bool
same_order h b = if b.little then h.declared_little else (if h.declared_little then false else true)

-- write_fint16 to write_fuint64, by the width.
unfoldable pub write_fixed : Host → ByteArray → ℕ → ℕ → Outcome ByteArray
write_fixed h b w v = write b (to_memory h w (if same_order h b then v else byteswap w v))

-- read_fint16 to read_fuint64.
unfoldable pub read_fixed : Host → ByteArray → ℕ → Outcome (ℕ × ByteArray)
read_fixed h b w = do
  (bs, b') ← read b w
  ok (if same_order h b then of_memory h bs else byteswap w (of_memory h bs), b')

-- write_fint8, write_fuint8 and their reads: one byte, no order.
unfoldable pub write_fint8 : ByteArray → ℕ → Outcome ByteArray
write_fint8 b v = write b (v ∷ [])

abbrev head_byte : List ℕ → ℕ
head_byte [] = 0
head_byte (x ∷ xs) = x

unfoldable pub read_fint8 : ByteArray → Outcome (ℕ × ByteArray)
read_fint8 b = do (bs, b') ← read b 1; ok (head_byte bs, b')

-- EncodeZigzap and DecodeZigzap at `w` bits. `-val` is taken modulo 2 ^ w.
unfoldable pub encode_zigzap : ℕ → ℕ → ℕ
encode_zigzap w v =
    if ltb v (2 ^ (w - 1)) then v * 2 % 2 ^ w else ((2 ^ w - v) * 2 % 2 ^ w + 2 ^ w - 1) % 2 ^ w

unfoldable pub decode_zigzap : ℕ → ℕ → ℕ
decode_zigzap w v = bit_xor (v / 2) ((2 ^ w - v % 2) % 2 ^ w)

-- The loop of write_uint32 and write_uint64 over a buffer with `slots` free bytes; `none` is a write
-- behind the buffer. `v & 0x7f` is `v % 128`, and `| 0x80` adds 128 to it.
unfoldable pub varint : ℕ → ℕ → Option (List ℕ)
varint zero v = none
varint (suc slots) v =
    let rest = varint slots (v / 128) in
    if ltb v 0x80
    then some (v ∷ [])
    else elim rest [ none ↦ none | some bs ↦ some ((v % 128 + 128) ∷ bs) ]

unfoldable pub write_uint32 : ByteArray → ℕ → Outcome ByteArray
write_uint32 b v = do bs ← deref (varint 5 v); write b bs

unfoldable pub write_uint64 : ByteArray → ℕ → Outcome ByteArray
write_uint64 b v = do bs ← deref (varint 10 v); write b bs

unfoldable pub write_int32 : ByteArray → ℕ → Outcome ByteArray
write_int32 b v = write_uint32 b (encode_zigzap 32 v)

unfoldable pub write_int64 : ByteArray → ℕ → Outcome ByteArray
write_int64 b v = write_uint64 b (encode_zigzap 64 v)

-- The loop of read_uint32 and read_uint64 of `w` bits, with `rounds` left and shift `i`.
unfoldable pub read_groups : ℕ → ℕ → ByteArray → ℕ → ℕ → Outcome (ℕ × ByteArray)
read_groups w zero b i res = ok (res, b)
read_groups w (suc rounds) b i res = do
  (x, b') ← read_fint8 b
  if ltb x 0x80
      then ok (bit_or res (x * 2 ^ i % 2 ^ w), b')
      else read_groups w rounds b' (i + 7) (bit_or res (x % 128 * 2 ^ i % 2 ^ w))

-- i = 0, 7, .. below 32 or 64.
unfoldable pub read_uint32 : ByteArray → Outcome (ℕ × ByteArray)
read_uint32 b = read_groups 32 5 b 0 0

unfoldable pub read_uint64 : ByteArray → Outcome (ℕ × ByteArray)
read_uint64 b = read_groups 64 10 b 0 0

unfoldable pub read_int32 : ByteArray → Outcome (ℕ × ByteArray)
read_int32 b = do (v, b') ← read_uint32 b; ok (decode_zigzap 32 v, b')

unfoldable pub read_int64 : ByteArray → Outcome (ℕ × ByteArray)
read_int64 b = do (v, b') ← read_uint64 b; ok (decode_zigzap 64 v, b')

-- A float or double is copied into the unsigned word of its width; `v` is its bit pattern.
unfoldable pub write_float : Host → ByteArray → ℕ → Outcome ByteArray
write_float h b v = write_fixed h b 4 v

unfoldable pub write_double : Host → ByteArray → ℕ → Outcome ByteArray
write_double h b v = write_fixed h b 8 v

unfoldable pub read_float : Host → ByteArray → Outcome (ℕ × ByteArray)
read_float h b = read_fixed h b 4

unfoldable pub read_double : Host → ByteArray → Outcome (ℕ × ByteArray)
read_double h b = read_fixed h b 8

-- write_string_f16, f32 and f64: the length in `w` bytes, then the text.
unfoldable pub write_string : Host → ByteArray → ℕ → List ℕ → Outcome ByteArray
write_string h b w s = do b' ← write_fixed h b w (length s % 2 ^ (8 * w)); write b' s

unfoldable pub write_string_vint : ByteArray → List ℕ → Outcome ByteArray
write_string_vint b s = do b' ← write_uint64 b (length s); write b' s

unfoldable pub write_string_withoutlen : ByteArray → List ℕ → Outcome ByteArray
write_string_withoutlen b s = write b s

-- read_string_f16, f32 and f64.
unfoldable pub read_string : Host → ByteArray → ℕ → Outcome (List ℕ × ByteArray)
read_string h b w = do (n, b') ← read_fixed h b w; read b' n

-- read_string_vint takes its length by read_fuint64.
unfoldable pub read_string_vint : Host → ByteArray → Outcome (List ℕ × ByteArray)
read_string_vint h b = do (n, b') ← read_fixed h b 8; read b' n
