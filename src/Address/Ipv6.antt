-- ===== src/Address/Ipv6.antt =====
-- IPv6Address of src/address.cpp, over the sixteen bytes of s6_addr.
use cool.Base.{
  ℕ, zero, suc, ◌+◌, ◌-◌, ◌*◌, ◌/◌, ◌%◌, Bool, true, false, not, ◌&&◌, List, [], ◌∷◌, ◌++◌, Option,
  none, some, length, get_elem?, set, take, drop, replicate, ltb, ◌==◌, if◌then◌else◌,
}
use cool.Base.Text.{hex_digit, Text, codes, decimal}
use Prim.Native.Nat.{bit_and, bit_or}
use cool.ByteArray.Codec.{byteswap}
use cool.Address.{create_mask}

pub record Ipv6Address : Type 0 where
  pub s6_addr : List ℕ
  pub sin6_port : ℕ

-- IPv6Address(), IPv6Address(address, port) and Create, where `pton` is inet_pton.
unfoldable pub zero_ipv6 : Ipv6Address
zero_ipv6 = record { s6_addr = replicate 16 0; sin6_port = 0 }

unfoldable pub new_ipv6 : List ℕ → ℕ → Ipv6Address
new_ipv6 address port = record { s6_addr = take 16 address; sin6_port = byteswap 2 port }

unfoldable pub create_ipv6 : (Text → Option (List ℕ)) → Text → ℕ → Option Ipv6Address
create_ipv6 pton address port = elim (pton address) [
  | none ↦ none
  | some bytes ↦ some (record { s6_addr = bytes; sin6_port = byteswap 2 port })
]

-- A change of s6_addr[prefix_len / 8] by the mask; `none` is an index out of range.
unfoldable pub change_byte : (ℕ → ℕ → ℕ) → List ℕ → ℕ → Option (List ℕ)
change_byte f bytes prefix_len = elim (get_elem? bytes (prefix_len / 8)) [
  | none ↦ none
  | some x ↦ elim (create_mask 8 (prefix_len % 8)) [
    | none ↦ none
    | some m ↦ some (set bytes (prefix_len / 8) (f x m))
  ]
]

-- The bytes from an index on are 0xff, and those below it.
abbrev pub fill_from : ℕ → List ℕ → List ℕ
fill_from i bytes = take i bytes ++ replicate (length bytes - i) 255

abbrev pub fill_below : ℕ → List ℕ → List ℕ
fill_below i bytes = replicate i 255 ++ drop i bytes

unfoldable pub broadcast_address : Ipv6Address → ℕ → Option Ipv6Address
broadcast_address a prefix_len = elim (change_byte bit_or a.s6_addr prefix_len) [
  | none ↦ none
  | some bytes ↦ some (record a { s6_addr = fill_from (prefix_len / 8 + 1) bytes })
]

unfoldable pub network_address : Ipv6Address → ℕ → Option Ipv6Address
network_address a prefix_len = elim (change_byte bit_and a.s6_addr prefix_len) [
  | none ↦ none
  | some bytes ↦ some (record a { s6_addr = bytes })
]

unfoldable pub subnet_mask : ℕ → Option Ipv6Address
subnet_mask prefix_len = elim (change_byte (λ x m. 255 - m) (replicate 16 0) prefix_len) [
  | none ↦ none
  | some bytes ↦ some (record { s6_addr = fill_below (prefix_len / 8) bytes; sin6_port = 0 })
]

-- The eight groups, in the order of the network.
unfoldable pub groups_of : List ℕ → List ℕ
groups_of [] = []
groups_of (x ∷ []) = []
groups_of (x ∷ y ∷ bytes) = (x * 256 + y) ∷ groups_of bytes

-- A number below 16 ^ fuel in base 16.
unfoldable pub hex_text : ℕ → ℕ → Text
hex_text zero n = []
hex_text (suc fuel) n =
    let rest = hex_text fuel (n / 16) in
    if ltb n 16 then hex_digit n ∷ [] else rest ++ hex_digit (n % 16) ∷ []

abbrev is_zero_group : Option ℕ → Bool
is_zero_group none = false
is_zero_group (some g) = g == 0

abbrev colon_after : Option ℕ → Text
colon_after none = []
colon_after (some g) = b':' ∷ []

-- The loop of insert: the group before, if there is one, and used_zeros; the text and used_zeros.
unfoldable pub insert_groups : Option ℕ → Bool → List ℕ → Text × Bool
insert_groups before used [] = ([], used)
insert_groups before used (g ∷ gs) =
    let skip = insert_groups (some g) used gs in
    let mark = is_zero_group before && not used in
    let rest = insert_groups (some g) (if mark then true else used) gs in
    if g == 0 && not used
    then skip
    else ((if mark then b':' ∷ [] else []) ++ colon_after before ++ hex_text 4 g ++ rest.0, rest.1)

abbrev pub last_is_zero : List ℕ → Bool
last_is_zero [] = false
last_is_zero (g ∷ []) = g == 0
last_is_zero (g ∷ h ∷ gs) = last_is_zero (h ∷ gs)

unfoldable pub to_text : Ipv6Address → Text
to_text a =
    let groups = groups_of a.s6_addr in
    let (s, used) = insert_groups none false groups in
    b'[' ∷ s
    ++ (if not used && last_is_zero groups then codes "::" else [])
    ++ codes "]:"
    ++ decimal (byteswap 2 a.sin6_port)
