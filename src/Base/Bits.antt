-- ===== src/Base/Bits.antt =====
-- The laws of `|` and `^` that the wire formats need, by recursion on the binary digits.
use Prim.Native.Nat.{
  ℕ, zero, suc, ◌+◌, ◌-◌, ◌*◌, ◌/◌, ◌%◌, ◌^◌, ◌≤◌, ◌<◌, max, min, differ, bit_and, bit_or, bit_xor,
  digits, bit_and-bitwise, bit_or-bitwise, bit_xor-bitwise,
}
use mathlib.Core.Path.{◌≡◌, refl, ap, ◌∙◌}
use native.Mathlib.Nat.{pow-suc, le_refl}
use native.Mathlib.Omega.{arith}

-- Digits of the first number beyond its length add nothing, so fuel above it does not matter.
module _ (z : ℕ → ℕ) (f : ℕ → ℕ → ℕ) where
  abbrev keeps : ℕ → ℕ → ℕ → ℕ
  keeps n a b = digits z f n a b

  keeps-zero : (n b : ℕ) → keeps n zero b ≡ z b
  keeps-zero zero b = refl
  keeps-zero (suc n) b = refl

  keeps_enough : (n m a b : ℕ) → a ≤ n → a ≤ m → keeps n a b ≡ keeps m a b
  keeps_enough n m zero b h k = rw (keeps-zero n b, keeps-zero m b)
  keeps_enough zero m (suc a) b h k = absurd (omega arith)
  keeps_enough (suc n) zero (suc a) b h k = absurd (omega arith)
  keeps_enough (suc n) (suc m) (suc a) b h k =
      let rest = keeps_enough n m (suc a / 2) (b / 2) (omega arith) (omega arith) in
      ap (λ (t : ℕ). t * 2 + f (suc a % 2) (b % 2)) rest

  keeps_step :
      (a b : ℕ)
      → z b ≡ z (b / 2) * 2 + f zero (b % 2)
      → keeps a a b ≡ keeps (a / 2) (a / 2) (b / 2) * 2 + f (a % 2) (b % 2)
  keeps_step zero b h = h
  keeps_step (suc a) b h =
      let rest = keeps_enough a (suc a / 2) (suc a / 2) (b / 2) (omega arith) (le_refl _) in
      ap (λ (t : ℕ). t * 2 + f (suc a % 2) (b % 2)) rest

pub or_step : (a b : ℕ) → bit_or a b ≡ bit_or (a / 2) (b / 2) * 2 + max (a % 2) (b % 2)
or_step a b = simp bit_or-bitwise (keeps_step (λ y. y) max a b (omega arith))

pub and_step : (a b : ℕ) → bit_and a b ≡ bit_and (a / 2) (b / 2) * 2 + min (a % 2) (b % 2)
and_step a b = simp bit_and-bitwise (keeps_step (λ y. zero) min a b (omega arith))

xor_step : (a b : ℕ) → bit_xor a b ≡ bit_xor (a / 2) (b / 2) * 2 + differ (a % 2) (b % 2)
xor_step a b = simp bit_xor-bitwise (keeps_step (λ y. y) differ a b (omega arith))

zero-bit_or : (b : ℕ) → bit_or 0 b ≡ b
zero-bit_or b = bit_or-bitwise 0 b

shift_twice : (q k : ℕ) → q * 2 ^ suc k ≡ 2 * (q * 2 ^ k)
shift_twice q k = omega (arith, ap (λ (t : ℕ). q * t) (pow-suc 2 k))

-- `a | (q << k)` is a sum where `a` fits the low k bits.
pub bit_or_disjoint : (k a q : ℕ) → a < 2 ^ k → bit_or a (q * 2 ^ k) ≡ a + q * 2 ^ k
bit_or_disjoint zero zero q h = omega (arith, zero-bit_or (q * 2 ^ 0))
bit_or_disjoint zero (suc a) q h = absurd (omega arith)
bit_or_disjoint (suc k) a q h = ground (
  arith,
  or_step a (q * 2 ^ suc k),
  shift_twice q k,
  pow-suc 2 k,
  bit_or_disjoint k (a / 2) q (omega (arith, pow-suc 2 k)),
)

differ_one : (b : ℕ) → b < 2 → differ b 1 ≡ 1 - b
differ_one zero h = refl
differ_one (suc zero) h = refl
differ_one (suc (suc b)) h = absurd (omega arith)

differ_zero : (b : ℕ) → differ b 0 ≡ b
differ_zero zero = refl
differ_zero (suc b) = refl

-- `a ^ 0xff..f` is the complement.
pub bit_xor_ones : (k a : ℕ) → a < 2 ^ k → bit_xor a (2 ^ k - 1) ≡ 2 ^ k - 1 - a
bit_xor_ones zero zero h = refl
bit_xor_ones zero (suc a) h = absurd (omega arith)
bit_xor_ones (suc k) a h =
    let odd : (2 ^ suc k - 1) % 2 ≡ 1 = omega (arith, pow-suc 2 k) in
    let half : (2 ^ suc k - 1) / 2 ≡ 2 ^ k - 1 = omega (arith, pow-suc 2 k) in
    xor_step a (2 ^ suc k - 1)
    ∙ rw (odd, half)
        (ground (
          arith,
          differ_one (a % 2),
          pow-suc 2 k,
          bit_xor_ones k (a / 2) (omega (arith, pow-suc 2 k)),
        ))

pub bit_xor-zero : (k a : ℕ) → a < 2 ^ k → bit_xor a 0 ≡ a
bit_xor-zero zero zero h = refl
bit_xor-zero zero (suc a) h = absurd (omega arith)
bit_xor-zero (suc k) a h =
    omega (
      arith,
      xor_step a 0,
      differ_zero (a % 2),
      bit_xor-zero k (a / 2) (omega (arith, pow-suc 2 k)),
    )
