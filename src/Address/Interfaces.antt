-- ===== src/Address/Interfaces.antt =====
-- The sockaddr conversions and the interfaces of src/address.cpp. The answers of getaddrinfo and
-- getifaddrs are arguments; an address is read by its family. The multimap of interfaces is a list in
-- the order of insertion, of which only the entries of one name are asked for.
pub mod Family
use mathlib.Core.Path.{subst}
use cool.Base.{
  ℕ, zero, suc, ◌+◌, ◌≡◌, refl, Bool, true, false, not, ◌&&◌, ◌||◌, List, [], ◌∷◌, ◌++◌, ◌⊎◌,
  Option, none, some, ◌==◌, ==_iff, if◌then◌else◌, All, arith, Bool-cases, inl, inr, ap, sym, ◌∙◌,
}
use cool.Base.Text.{Text, codes, text_eq, decimal}
use cool.Address.{Ipv4Address, count_rounds, new_ipv4}
use cool.Address.Ipv6.{Ipv6Address, zero_ipv6}
use cool.ByteArray.Codec.{byteswap}

abbrev pub af_unspec : ℕ
af_unspec = 0

abbrev pub af_inet : ℕ
af_inet = 2

abbrev pub af_inet6 : ℕ
af_inet6 = 10

-- A sockaddr, and the Address of it: UnknowAddress for every other family.
pub data Sockaddr : Type 0 where
  ipv4 : Ipv4Address → Sockaddr
  ipv6 : Ipv6Address → Sockaddr
  unknown : (family : ℕ) → Sockaddr

-- family().
unfoldable pub family_of : Sockaddr → ℕ
family_of (ipv4 a) = af_inet
family_of (ipv6 a) = af_inet6
family_of (unknown family) = family

-- Address::Create; `none` is a null pointer.
unfoldable pub create : Option Sockaddr → Option Sockaddr
create none = none
create (some a) = some a

-- insert of an UnknowAddress.
unfoldable pub unknown_to_text : ℕ → Text
unknown_to_text family = codes "[UnknowAddress family=" ++ decimal family ++ codes "]"

abbrev pub is_ip : Sockaddr → Bool
is_ip (ipv4 a) = true
is_ip (ipv6 a) = true
is_ip (unknown family) = false

-- LookupAnyIPAddress, with what Lookup found, `none` for its answer false.
unfoldable pub first_ip : List Sockaddr → Option Sockaddr
first_ip [] = none
first_ip (a ∷ found) = let rest = first_ip found in if is_ip a then some a else rest

unfoldable pub lookup_any_ip_address : Option (List Sockaddr) → Option Sockaddr
lookup_any_ip_address none = none
lookup_any_ip_address (some found) = first_ip found

-- port(v) of an IPAddress.
abbrev pub with_port : ℕ → Sockaddr → Option Sockaddr
with_port port (ipv4 a) = some (ipv4 (record a { sin_port = byteswap 2 port }))
with_port port (ipv6 a) = some (ipv6 (record a { sin6_port = byteswap 2 port }))
with_port port (unknown family) = none

-- IPAddress::Create(address, port), with the first answer of getaddrinfo, `none` for an error.
unfoldable pub create_ip : Option (Option Sockaddr) → ℕ → Option Sockaddr
create_ip none port = none
create_ip (some answer) port = elim (create answer) [ none ↦ none | some a ↦ with_port port a ]

-- ifa_netmask: a word, the bytes of an IPv6 mask, or null.
pub data Netmask : Type 0 where
  word : ℕ → Netmask
  bytes : List ℕ → Netmask
  null : Netmask

-- An interface of getifaddrs.
pub record Interface : Type 0 where
  pub name : Text
  pub addr : Option Sockaddr
  pub netmask : Netmask

-- CountBytes on a word of at most 32 bits.
abbrev pub count_bytes : ℕ → Option ℕ
count_bytes value = count_rounds 33 value

unfoldable pub count_all : List ℕ → Option ℕ
count_all [] = some 0
count_all (b ∷ bs) = elim (count_bytes b) [
  | none ↦ none
  | some n ↦ elim (count_all bs) [ none ↦ none | some k ↦ some (n + k) ]
]

-- The prefix of a netmask that is read as that of the family of the address; `none` for a null pointer
-- that is followed, or a mask of the other family.
unfoldable pub prefix_of : Sockaddr → Netmask → Option ℕ
prefix_of (ipv4 a) (word m) = count_bytes m
prefix_of (ipv6 a) (bytes bs) = count_all bs
prefix_of _ _ = none

-- One round of the loop over the interfaces: what it adds to the result, or `none` for a null pointer
-- that is followed: the family is asked for before ifa_addr is compared with NULL.
unfoldable pub round_on : ℕ → Text → Netmask → Option Sockaddr → Option (List (Text × Sockaddr × ℕ))
round_on family name mask none = if family == af_unspec then some [] else none
round_on family name mask (some a) =
    if not (family == af_unspec) && not (family == family_of a)
    then some []
    else (if not (is_ip a)
        then some []
        else elim (prefix_of a mask) [ none ↦ none | some n ↦ some ((name, a, n) ∷ []) ])

unfoldable pub round : ℕ → Interface → Option (List (Text × Sockaddr × ℕ))
round family i = round_on family i.name i.netmask i.addr

unfoldable pub rounds : ℕ → List Interface → Option (List (Text × Sockaddr × ℕ))
rounds family [] = some []
rounds family (i ∷ is) = elim (round family i) [
  | none ↦ none
  | some found ↦ elim (rounds family is) [ none ↦ none | some rest ↦ some (found ++ rest) ]
]

abbrev pub is_filled : List (Text × Sockaddr × ℕ) → Bool
is_filled [] = false
is_filled (e ∷ es) = true

-- GetInterfaceAddress(res, family) into an empty multimap, with what getifaddrs answers.
unfoldable pub get_interfaces :
    ℕ → Option (List Interface) → Option (List (Text × Sockaddr × ℕ) × Bool)
get_interfaces family none = some ([], false)
get_interfaces family (some is) = elim (rounds family is) [
  | none ↦ none
  | some es ↦ some (es, is_filled es)
]

-- equal_range(iface).
unfoldable pub equal_range : Text → List (Text × Sockaddr × ℕ) → List (Sockaddr × ℕ)
equal_range iface [] = []
equal_range iface ((name, a, n) ∷ es) =
    let rest = equal_range iface es in if text_eq name iface then (a, n) ∷ rest else rest

abbrev pub is_any : Text → Bool
is_any [] = true
is_any (c ∷ s) = text_eq (c ∷ s) (codes "*")

-- The addresses 0.0.0.0 and :: of the families asked for.
unfoldable pub any_addresses : ℕ → List (Sockaddr × ℕ)
any_addresses family =
    (if family == af_inet || family == af_unspec then (ipv4 (new_ipv4 0 0), 0) ∷ [] else [])
    ++ (if family == af_inet6 || family == af_unspec then (ipv6 zero_ipv6, 0) ∷ [] else [])

-- GetInterfaceAddress(res, iface, family): what it adds to res, and its answer.
unfoldable pub get_interface :
    Text → ℕ → Option (List Interface) → Option (List (Sockaddr × ℕ) × Bool)
get_interface iface family answer =
    if is_any iface
    then some (any_addresses family, true)
    else elim (get_interfaces family answer) [
      | none ↦ none
      | some (es, ok) ↦ if ok then some (equal_range iface es, true) else some ([], false)
    ]
