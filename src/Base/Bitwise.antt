-- ===== src/Base/Bitwise.antt =====
-- Operations on binary digits, such as `|` and `&`, work on each part of a word by itself.
use Prim.Native.Nat.{ℕ, zero, suc, ◌+◌, ◌-◌, ◌*◌, ◌/◌, ◌%◌, ◌^◌, ◌<◌, max, min, bit_and, bit_or}
use mathlib.Core.Path.{◌≡◌, refl, ap, ◌∙◌}
use native.Mathlib.Nat.{pow-suc}
use native.Mathlib.Omega.{arith}
use cool.Base.Bits.{or_step, and_step}

-- An operation on words that is `f` on each digit.
abbrev pub IsDigitwise : (ℕ → ℕ → ℕ) → (ℕ → ℕ → ℕ) → Type 0
IsDigitwise op f =
    ((a b : ℕ) → op a b ≡ op (a / 2) (b / 2) * 2 + f (a % 2) (b % 2))
    × (op 0 0 ≡ 0)
    × ((a b : ℕ) → a < 2 → b < 2 → f a b < 2)

module _ (op f : ℕ → ℕ → ℕ) (d : IsDigitwise op f) where
  pub op-lt : (k a b : ℕ) → a < 2 ^ k → b < 2 ^ k → op a b < 2 ^ k
  op-lt zero a b h k =
      let e : op a b ≡ 0 = ap (λ (i : ℕ). op i b) zero_a ∙ ap (op 0) zero_b ∙ d.1 in
      omega (arith, e)
    where
      zero_a : a ≡ 0
      zero_a = omega arith

      zero_b : b ≡ 0
      zero_b = omega arith
  op-lt (suc n) a b h k = omega (
    arith,
    d.0 a b,
    d.2 (a % 2) (b % 2) (omega arith) (omega arith),
    op-lt n (a / 2) (b / 2) (omega (arith, pow-suc 2 n)) (omega (arith, pow-suc 2 n)),
    pow-suc 2 n,
  )

  halves :
      (k a q : ℕ)
      → ((a + q * 2 ^ suc k) / 2 ≡ a / 2 + q * 2 ^ k) × ((a + q * 2 ^ suc k) % 2 ≡ a % 2)
  halves k a q =
      let e : q * 2 ^ suc k ≡ 2 * (q * 2 ^ k) =
        omega (arith, ap (λ (t : ℕ). q * t) (pow-suc 2 k)) in
      (omega (arith, e), omega (arith, e))

  -- The low k bits and those above them.
  pub op_parts :
      (k a b q r : ℕ)
      → a < 2 ^ k
      → b < 2 ^ k
      → op (a + q * 2 ^ k) (b + r * 2 ^ k) ≡ op a b + op q r * 2 ^ k
  op_parts zero zero zero q r h k =
      let e : zero + q * 2 ^ 0 ≡ q = omega arith in
      let g : zero + r * 2 ^ 0 ≡ r = omega arith in
      ap (λ (t : ℕ). op t (zero + r * 2 ^ 0)) e ∙ ap (op q) g ∙ omega (arith, d.1)
  op_parts zero (suc a) b q r h k = absurd (omega arith)
  op_parts zero zero (suc b) q r h k = absurd (omega arith)
  op_parts (suc k) a b q r h g =
      let (x, x') = halves k a q in
      let (y, y') = halves k b r in
      let rest =
        op_parts k (a / 2) (b / 2) q r (omega (arith, pow-suc 2 k)) (omega (arith, pow-suc 2 k)) in
      let e : op q r * 2 ^ suc k ≡ 2 * (op q r * 2 ^ k) =
        omega (arith, ap (λ (t : ℕ). op q r * t) (pow-suc 2 k)) in
      d.0 (a + q * 2 ^ suc k) (b + r * 2 ^ suc k)
      ∙ rw (x, x', y, y', rest) (omega (arith, d.0 a b, e))

max_two : (a b : ℕ) → a < 2 → b < 2 → max a b < 2
max_two a b h k = omega arith

min_two : (a b : ℕ) → a < 2 → b < 2 → min a b < 2
min_two a b h k = omega arith

pub or-IsDigitwise : IsDigitwise bit_or max
or-IsDigitwise = (or_step, refl, max_two)

pub and-IsDigitwise : IsDigitwise bit_and min
and-IsDigitwise = (and_step, refl, min_two)

-- `|` with ones, `&` with ones and `&` with zero.
pub or_ones : (k a : ℕ) → a < 2 ^ k → bit_or a (2 ^ k - 1) ≡ 2 ^ k - 1
or_ones zero zero h = refl
or_ones zero (suc a) h = absurd (omega arith)
or_ones (suc k) a h =
    let odd : (2 ^ suc k - 1) % 2 ≡ 1 = omega (arith, pow-suc 2 k) in
    let half : (2 ^ suc k - 1) / 2 ≡ 2 ^ k - 1 = omega (arith, pow-suc 2 k) in
    or_step a (2 ^ suc k - 1)
    ∙ rw (odd, half, or_ones k (a / 2) (omega (arith, pow-suc 2 k))) (omega (arith, pow-suc 2 k))

pub and_ones : (k a : ℕ) → a < 2 ^ k → bit_and a (2 ^ k - 1) ≡ a
and_ones zero zero h = refl
and_ones zero (suc a) h = absurd (omega arith)
and_ones (suc k) a h =
    let odd : (2 ^ suc k - 1) % 2 ≡ 1 = omega (arith, pow-suc 2 k) in
    let half : (2 ^ suc k - 1) / 2 ≡ 2 ^ k - 1 = omega (arith, pow-suc 2 k) in
    and_step a (2 ^ suc k - 1)
    ∙ rw (odd, half, and_ones k (a / 2) (omega (arith, pow-suc 2 k))) (omega arith)

pub and_zero : (k a : ℕ) → a < 2 ^ k → bit_and a 0 ≡ 0
and_zero zero zero h = refl
and_zero zero (suc a) h = absurd (omega arith)
and_zero (suc k) a h = omega (arith, and_step a 0, and_zero k (a / 2) (omega (arith, pow-suc 2 k)))

pub or_zero : (k a : ℕ) → a < 2 ^ k → bit_or a 0 ≡ a
or_zero zero zero h = refl
or_zero zero (suc a) h = absurd (omega arith)
or_zero (suc k) a h = omega (arith, or_step a 0, or_zero k (a / 2) (omega (arith, pow-suc 2 k)))
