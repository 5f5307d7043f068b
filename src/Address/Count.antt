-- ===== src/Address/Count.antt =====
-- CountBytes of src/address.cpp counts the bits that are set.
use Prim.Native.Nat.{bit_and}
use cool.Base.{
  ℕ, zero, suc, ◌+◌, ◌-◌, ◌*◌, ◌/◌, ◌%◌, ◌^◌, ◌≤◌, ◌<◌, ◌≡◌, refl, ap, ◌∙◌, some, arith, ◌==◌, ◌⊎◌,
  inl, inr, false,
}
use cool.Base.Bits.{and_step}
use native.Mathlib.Nat.{pow-suc}
use cool.Address.{count_rounds}

-- The sum of the lowest `w` digits.
unfoldable pub bit_sum : ℕ → ℕ → ℕ
bit_sum zero v = 0
bit_sum (suc w) v = v % 2 + bit_sum w (v / 2)

bit_sum-zero : (w : ℕ) → bit_sum w 0 ≡ 0
unfolding bit_sum
bit_sum-zero zero = refl
bit_sum-zero (suc w) = omega (arith, bit_sum-zero w)

bit_sum-le : (w v : ℕ) → bit_sum w v ≤ w
unfolding bit_sum
bit_sum-le zero v = omega arith
bit_sum-le (suc w) v = omega (arith, bit_sum-le w (v / 2))

and_self : (w h : ℕ) → h < 2 ^ w → bit_and h h ≡ h
and_self zero zero g = refl
and_self zero (suc h) g = absurd (omega arith)
and_self (suc w) h g = omega (arith, and_step h h, and_self w (h / 2) (omega (arith, pow-suc 2 w)))

odd_or_even : (v : ℕ) → (v % 2 ≡ 1) ⊎ (v % 2 ≡ 0)
odd_or_even v = ground arith

-- One round clears one bit.
cleared_lem :
    (w v : ℕ)
    → 0 < v
    → v < 2 ^ w
    → (bit_and v (v - 1) < 2 ^ w) × (bit_sum w (bit_and v (v - 1)) + 1 ≡ bit_sum w v)
unfolding bit_sum
cleared_lem zero v p h = absurd (omega arith)
cleared_lem (suc w) v p h = elim (odd_or_even v) [
  | inl o ↦
      let e : (v - 1) / 2 ≡ v / 2 = omega arith in
      let z : (v - 1) % 2 ≡ 0 = omega arith in
      let s : bit_and v (v - 1) ≡ v / 2 * 2 =
        and_step v (v - 1)
        ∙ rw (e, z, and_self w (v / 2) (omega (arith, pow-suc 2 w))) (omega arith) in
      let a : v / 2 * 2 % 2 ≡ 0 = omega arith in
      let b : v / 2 * 2 / 2 ≡ v / 2 = omega arith in (omega (arith, s), rw (s, a, b) (omega arith))
  | inr o ↦
      let e : (v - 1) / 2 ≡ v / 2 - 1 = omega arith in
      let c = bit_and (v / 2) (v / 2 - 1) in
      let s : bit_and v (v - 1) ≡ c * 2 = and_step v (v - 1) ∙ rw (e, o) (omega arith) in
      let (l, r) = cleared_lem w (v / 2) (omega arith) (omega (arith, pow-suc 2 w)) in
      let a : c * 2 % 2 ≡ 0 = omega arith in
      let b : c * 2 / 2 ≡ c = omega arith in
      (omega (arith, s, l, pow-suc 2 w), rw (s, a, b, o) (omega (arith, r)))
]

rounds_lem :
    (fuel w v : ℕ) → v < 2 ^ w → bit_sum w v < fuel → count_rounds fuel v ≡ some (bit_sum w v)
unfolding count_rounds
rounds_lem zero w v h g = absurd (omega arith)
rounds_lem (suc fuel) w zero h g = rw (bit_sum-zero w) refl
rounds_lem (suc fuel) w (suc v) h g =
    let (l, r) = cleared_lem w (suc v) (omega arith) h in
    let q = rounds_lem fuel w (bit_and (suc v) (suc v - 1)) l (omega (arith, r)) in
    let z : (suc v == 0) ≡ false = ground arith in rw (count_rounds, z, q) (ap some r)

-- On a word of w bits the loop ends within w rounds and answers how many of the bits are set, so
-- that the prefix length of an interface is the number of ones in its mask.
pub count_rounds_lem : (w v : ℕ) → v < 2 ^ w → count_rounds (suc w) v ≡ some (bit_sum w v)
count_rounds_lem w v h = rounds_lem (suc w) w v h (omega (arith, bit_sum-le w v))
