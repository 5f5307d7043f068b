-- ===== src/Address/Runs.antt =====
-- The theorems on src/address.cpp at concrete addresses, and tests of its texts.
use cool.Base.{ℕ, ◌≡◌, ◌+◌, ◌-◌, ◌*◌, ◌^◌, refl, true, false, List, [], ◌∷◌, some, arith, ◌||◌}
use cool.Base.Text.{codes, decimal, digits_of}
use cool.ByteArray.Codec.{byteswap, le_bytes, le_value}
use cool.Address.{
  new_ipv4, broadcast_address, network_address, subnet_mask, to_text, port, less, equal,
}
use cool.Address.Ipv6
use cool.Address.Ipv6.{new_ipv6, groups_of, insert_groups, hex_text}
use cool.Address.Masks.{masks_lem}
use cool.Address.Ordered.{lexicographic, less_lem}

-- 192.168.1.20 with a prefix of 24 bits.
masks_lem_example :
    (broadcast_address (new_ipv4 (20 + 12625921 * 2 ^ 8) 80) 24
      ≡ some (some (new_ipv4 (2 ^ 8 - 1 + 12625921 * 2 ^ 8) 80)))
    × (network_address (new_ipv4 (20 + 12625921 * 2 ^ 8) 80) 24 ≡ some (some (new_ipv4 20 80)))
    × (subnet_mask 24 ≡ some (new_ipv4 (2 ^ 32 - 2 ^ 8) 0))
masks_lem_example = masks_lem 8 24 12625921 20 80 refl (omega arith) (omega arith) (omega arith)

to_text_test : to_text (new_ipv4 3232235796 80) ≡ codes "192.168.1.20:80"
unfolding to_text new_ipv4 byteswap le_bytes le_value decimal digits_of port
to_text_test = refl

ipv6_text_test :
    Ipv6.to_text
      (new_ipv6 (32 ∷ 1 ∷ 13 ∷ 184 ∷ 0 ∷ 0 ∷ 0 ∷ 0 ∷ 0 ∷ 0 ∷ 0 ∷ 0 ∷ 0 ∷ 0 ∷ 0 ∷ 1 ∷ []) 80)
    ≡ codes "[2001:db8::1]:80"
unfolding Ipv6.to_text new_ipv6 groups_of insert_groups hex_text byteswap le_bytes le_value decimal
    digits_of
ipv6_text_test = refl

less_lem_example :
    (less (2 ∷ 0 ∷ []) (2 ∷ 1 ∷ []) ≡ true)
    × (less (2 ∷ 0 ∷ []) (2 ∷ 0 ∷ []) ≡ false)
    × (less (2 ∷ 0 ∷ []) (2 ∷ 1 ∷ []) ≡ true
        → less (2 ∷ 1 ∷ []) (10 ∷ []) ≡ true
        → less (2 ∷ 0 ∷ []) (10 ∷ []) ≡ true)
    × ((less (2 ∷ 0 ∷ []) (2 ∷ 1 ∷ [])
          || (equal (2 ∷ 0 ∷ []) (2 ∷ 1 ∷ []) || less (2 ∷ 1 ∷ []) (2 ∷ 0 ∷ [])))
        ≡ true)
    × (equal (2 ∷ 0 ∷ []) (2 ∷ 1 ∷ []) ≡ true → ◌≡◌ {A = List ℕ} (2 ∷ 0 ∷ []) (2 ∷ 1 ∷ []))
unfolding lexicographic
less_lem_example = less_lem (2 ∷ 0 ∷ []) (2 ∷ 1 ∷ []) (10 ∷ [])
