-- ===== src/Address/Masks.antt =====
-- Broadcast, network and mask of an IPv4Address of src/address.cpp, against the address as a number.
use Prim.Native.Nat.{bit_and, bit_or, max, min}
use cool.Base.{
  ℕ, ◌+◌, ◌-◌, ◌*◌, ◌%◌, ◌^◌, ◌≤◌, ◌<◌, ◌≡◌, refl, ap, ◌∙◌, some, arith, ltb, leb, ◌||◌, false,
}
use cool.Base.Bitwise.{
  or-IsDigitwise, and-IsDigitwise, op_parts, or_ones, and_ones, or_zero, and_zero,
}
use native.Mathlib.Nat.{pow-le-pow_right}
use cool.ByteArray.Codec.{byteswap, le_bytes, le_value}
use cool.Address.{create_mask, new_ipv4, broadcast_address, network_address, subnet_mask}
use cool.Address.Swapped.{op-byteswap}

pow_bound : (k p : ℕ) → k + p ≡ 32 → 2 ^ k ≤ 2 ^ 32
pow_bound k p e = let h : k ≤ 32 = omega arith in pow-le-pow_right {n = 2} (omega arith) h

zero_port : byteswap 2 0 ≡ 0
unfolding byteswap le_bytes le_value
zero_port = refl

create_mask_lem : (k p : ℕ) → k + p ≡ 32 → 2 ≤ p → create_mask 32 p ≡ some (2 ^ k - 1)
unfolding create_mask
create_mask_lem k p e h =
    let i : 32 - p ≡ k = omega arith in
    let j : (ltb 32 p || leb 31 (32 - p)) ≡ false = ground arith in
    let l = pow_bound k p e in
    let m : (2 ^ k - 1) % 2 ^ 32 ≡ 2 ^ k - 1 = omega arith in rw (create_mask, j, i, m) refl

complement_lem : (m : ℕ) → m < 2 ^ 32 → 2 ^ 32 - 1 - byteswap 4 m ≡ byteswap 4 (2 ^ 32 - 1 - m)
unfolding byteswap le_bytes le_value
complement_lem m h = omega arith

-- The host part is filled, and it alone is left.
or_host_part :
    (k q r t : ℕ)
    → q < 2 ^ t
    → r < 2 ^ k
    → bit_or (r + q * 2 ^ k) (2 ^ k - 1) ≡ 2 ^ k - 1 + q * 2 ^ k
or_host_part k q r t g h =
    ap (bit_or (r + q * 2 ^ k)) (omega arith)
    ∙ op_parts bit_or max or-IsDigitwise k r (2 ^ k - 1) q 0 h (omega arith)
    ∙ rw (or_ones k r h, or_zero t q g) refl

and_host_part : (k q r t : ℕ) → q < 2 ^ t → r < 2 ^ k → bit_and (r + q * 2 ^ k) (2 ^ k - 1) ≡ r
and_host_part k q r t g h =
    ap (bit_and (r + q * 2 ^ k)) (omega arith)
    ∙ op_parts bit_and min and-IsDigitwise k r (2 ^ k - 1) q 0 h (omega arith)
    ∙ rw (and_ones k r h, and_zero t q g) (omega arith)

-- For a prefix of 2 to 32 bits, an address made of the network part q and the host part r, below
-- 2 ^ (32 - prefix_len): broadcastAddress fills the host part with ones, and the mask is all ones
-- but for the host part, without a port. networkAddress answers the host part in place of the
-- network part, since its mask is not inverted.
pub masks_lem :
    (k p q r port : ℕ)
    → k + p ≡ 32
    → 2 ≤ p
    → q < 2 ^ p
    → r < 2 ^ k
    → (broadcast_address (new_ipv4 (r + q * 2 ^ k) port) p
        ≡ some (some (new_ipv4 (2 ^ k - 1 + q * 2 ^ k) port)))
      × (network_address (new_ipv4 (r + q * 2 ^ k) port) p ≡ some (some (new_ipv4 r port)))
      × (subnet_mask p ≡ some (new_ipv4 (2 ^ 32 - 2 ^ k) 0))
unfolding broadcast_address network_address subnet_mask new_ipv4
masks_lem k p q r port e h g l =
    let c = create_mask_lem k p e h in
    let i : ltb 32 p ≡ false = ground arith in
    let a = r + q * 2 ^ k in
    let o =
      op-byteswap bit_or max or-IsDigitwise a (2 ^ k - 1)
      ∙ ap (byteswap 4) (or_host_part k q r p g l) in
    let n =
      op-byteswap bit_and min and-IsDigitwise a (2 ^ k - 1)
      ∙ ap (byteswap 4) (and_host_part k q r p g l) in
    let s : 2 ^ 32 - 1 - byteswap 4 (2 ^ k - 1) ≡ byteswap 4 (2 ^ 32 - 2 ^ k) =
      complement_lem (2 ^ k - 1) (omega (arith, pow_bound k p e))
      ∙ ap (byteswap 4) (omega (arith, pow_bound k p e)) in
    (
      rw (broadcast_address, i, c, o) refl,
      rw (network_address, i, c, n) refl,
      rw (subnet_mask, c, s, zero_port) refl,
    )
