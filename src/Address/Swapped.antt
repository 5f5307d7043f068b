-- ===== src/Address/Swapped.antt =====
-- `|` and `&` on swapped words: byteswapOnLittleEndian of src/endian.h moves whole bytes.
use cool.Base.{ℕ, ◌+◌, ◌*◌, ◌/◌, ◌%◌, ◌^◌, ◌<◌, ◌≡◌, refl, sym, ap, ◌∙◌, arith}
use cool.Base.Bitwise.{IsDigitwise, op-lt, op_parts}
use cool.ByteArray.Codec.{byteswap, le_bytes, le_value}

-- Four bytes, the first one lowest.
abbrev word : ℕ → ℕ → ℕ → ℕ → ℕ
word a b c d = a + (b + (c + d * 2 ^ 8) * 2 ^ 8) * 2 ^ 8

byteswap_four :
    (v : ℕ)
    → byteswap 4 v
      ≡ word (v / 256 / 256 / 256 % 256) (v / 256 / 256 % 256) (v / 256 % 256) (v % 256)
unfolding byteswap le_bytes le_value
byteswap_four v = omega arith

module _ (op f : ℕ → ℕ → ℕ) (d : IsDigitwise op f) where
  op_split : (a b : ℕ) → op a b ≡ op (a % 256) (b % 256) + op (a / 256) (b / 256) * 2 ^ 8
  op_split a b =
      let e : a % 256 + a / 256 * 2 ^ 8 ≡ a = omega arith in
      let g : b % 256 + b / 256 * 2 ^ 8 ≡ b = omega arith in
      ap (λ (t : ℕ). op t b) (sym e)
      ∙ ap (op (a % 256 + a / 256 * 2 ^ 8)) (sym g)
      ∙ op_parts op f d 8 (a % 256) (b % 256) (a / 256) (b / 256) (omega arith) (omega arith)

  op_low : (a b : ℕ) → op a b % 256 ≡ op (a % 256) (b % 256)
  op_low a b =
      omega (arith, op_split a b, op-lt op f d 8 (a % 256) (b % 256) (omega arith) (omega arith))

  op_high : (a b : ℕ) → op a b / 256 ≡ op (a / 256) (b / 256)
  op_high a b =
      omega (arith, op_split a b, op-lt op f d 8 (a % 256) (b % 256) (omega arith) (omega arith))

  op-word :
      (a b c e a' b' c' e' : ℕ)
      → a < 256
      → b < 256
      → c < 256
      → a' < 256
      → b' < 256
      → c' < 256
      → op (word a b c e) (word a' b' c' e') ≡ word (op a a') (op b b') (op c c') (op e e')
  op-word a b c e a' b' c' e' h i j h' i' j' =
      op_parts op f d 8 a a' (b + (c + e * 2 ^ 8) * 2 ^ 8) (b' + (c' + e' * 2 ^ 8) * 2 ^ 8) h h'
      ∙ ap (λ (t : ℕ). op a a' + t * 2 ^ 8)
          (op_parts op f d 8 b b' (c + e * 2 ^ 8) (c' + e' * 2 ^ 8) i i'
            ∙ ap (λ (t : ℕ). op b b' + t * 2 ^ 8) (op_parts op f d 8 c c' e e' j j'))

  pub op-byteswap : (a b : ℕ) → op (byteswap 4 a) (byteswap 4 b) ≡ byteswap 4 (op a b)
  op-byteswap a b =
      rw (byteswap_four a, byteswap_four b, byteswap_four (op a b))
        (op-word _ _ _ _ _ _ _ _ (omega arith) (omega arith) (omega arith) (omega arith)
            (omega arith) (omega arith)
          ∙ rw
              (
                op_high a b,
                op_high (a / 256) (b / 256),
                op_high (a / 256 / 256) (b / 256 / 256),
                op_low,
                op_low,
                op_low,
                op_low,
              )
              refl)
