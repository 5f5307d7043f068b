-- ===== src/Address.antt =====
-- src/address.h and src/address.cpp: IPv4 addresses and masks, the order of addresses, and the host
-- texts of Lookup. The words of a sockaddr_in are as the little-endian machine loads them. inet_pton
-- and getaddrinfo are arguments.
pub mod Ipv6
pub mod Unix
pub mod Swapped
pub mod Masks
pub mod Ordered
pub mod Hosts
pub mod Interfaces
pub mod Count
mod Runs
use cool.Base.{
  ℕ, zero, suc, ◌+◌, ◌-◌, ◌/◌, ◌%◌, ◌^◌, Bool, true, false, not, ◌&&◌, ◌||◌, List, [], ◌∷◌, ◌++◌,
  Option, none, some, length, ltb, leb, ◌==◌, if◌then◌else◌,
}
use cool.Base.Text.{Text, codes, decimal}
use Prim.Native.Nat.{bit_and, bit_or}
use cool.ByteArray.Codec.{byteswap}

pub record Ipv4Address : Type 0 where
  pub s_addr : ℕ
  pub sin_port : ℕ

-- CreateMask<T>(bits) for a T of `w` bits; `none` is a shift of the int 1 that is not defined.
unfoldable pub create_mask : ℕ → ℕ → Option ℕ
create_mask w bits =
    if ltb w bits || leb 31 (w - bits) then none else some ((2 ^ (w - bits) - 1) % 2 ^ w)

-- CountBytes: each round clears the lowest bit that is set.
unfoldable pub count_rounds : ℕ → ℕ → Option ℕ
count_rounds zero value = none
count_rounds (suc fuel) value =
    let rest = count_rounds fuel (bit_and value (value - 1)) in
    if value == 0 then some 0 else elim rest [ none ↦ none | some n ↦ some (n + 1) ]

-- IPv4Address(address, port).
unfoldable pub new_ipv4 : ℕ → ℕ → Ipv4Address
new_ipv4 address port = record { s_addr = byteswap 4 address; sin_port = byteswap 2 port }

-- IPv4Address::Create; `pton` is inet_pton, and `none` a null pointer.
unfoldable pub create_ipv4 : (Text → Option ℕ) → Text → ℕ → Option Ipv4Address
create_ipv4 pton address port = elim (pton address) [
  | none ↦ none
  | some a ↦ some (record { s_addr = a; sin_port = byteswap 2 port })
]

unfoldable pub port : Ipv4Address → ℕ
port a = byteswap 2 a.sin_port

unfoldable pub set_port : Ipv4Address → ℕ → Ipv4Address
set_port a v = record a { sin_port = byteswap 2 v }

-- insert.
unfoldable pub to_text : Ipv4Address → Text
to_text a =
    let addr = byteswap 4 a.s_addr in
    decimal (addr / 2 ^ 24 % 256)
    ++ b'.' ∷ decimal (addr / 2 ^ 16 % 256)
    ++ b'.' ∷ decimal (addr / 2 ^ 8 % 256)
    ++ b'.' ∷ decimal (addr % 256)
    ++ b':' ∷ decimal (port a)

-- The result of broadcastAddress and its like: `some none` is a null pointer, `none` an undefined shift.
unfoldable pub broadcast_address : Ipv4Address → ℕ → Option (Option Ipv4Address)
broadcast_address a prefix_len =
    if ltb 32 prefix_len then some none else elim (create_mask 32 prefix_len) [
      | none ↦ none
      | some m ↦ some (some (record a { s_addr = bit_or a.s_addr (byteswap 4 m) }))
    ]

unfoldable pub network_address : Ipv4Address → ℕ → Option (Option Ipv4Address)
network_address a prefix_len =
    if ltb 32 prefix_len then some none else elim (create_mask 32 prefix_len) [
      | none ↦ none
      | some m ↦ some (some (record a { s_addr = bit_and a.s_addr (byteswap 4 m) }))
    ]

unfoldable pub subnet_mask : ℕ → Option Ipv4Address
subnet_mask prefix_len = elim (create_mask 32 prefix_len) [
  | none ↦ none
  | some m ↦ some (record { s_addr = 2 ^ 32 - 1 - byteswap 4 m; sin_port = 0 })
]

-- memcmp of the first bytes: negative, zero or positive.
pub data Sign : Type 0 where
  negative same positive : Sign

unfoldable pub memcmp : ℕ → List ℕ → List ℕ → Sign
memcmp zero a b = same
memcmp (suc n) [] b = same
memcmp (suc n) (x ∷ a) [] = same
memcmp (suc n) (x ∷ a) (y ∷ b) =
    let rest = memcmp n a b in if ltb x y then negative else (if ltb y x then positive else rest)

-- operator< and operator== on the addrlen() bytes at addr().
unfoldable pub less : List ℕ → List ℕ → Bool
less a b = elim (memcmp (if ltb (length b) (length a) then length b else length a) a b) [
  | negative ↦ true
  | positive ↦ false
  | same ↦ ltb (length a) (length b)
]

abbrev pub is_same : Sign → Bool
is_same negative = false
is_same same = true
is_same positive = false

unfoldable pub equal : List ℕ → List ℕ → Bool
equal a b = length a == length b && is_same (memcmp (length a) a b)

-- memchr: what stands before the first such byte, and after it.
unfoldable pub split_at : ℕ → Text → Option (Text × Text)
split_at c [] = none
split_at c (x ∷ s) =
    let rest = split_at c s in
    if x == c then some ([], s) else elim rest [ none ↦ none | some (u, v) ↦ some (x ∷ u, v) ]

abbrev pub has_byte : ℕ → Text → Bool
has_byte c s = elim (split_at c s) [ none ↦ false | some p ↦ true ]

abbrev pub after_colon : Text → Option Text
after_colon [] = none
after_colon (c ∷ s) = if c == b':' then some s else none

-- The node and the service of a host in brackets.
abbrev pub around_bracket : Option (Text × Text) → Text × Option Text
around_bracket none = ([], none)
around_bracket (some (node, rest)) = (node, after_colon rest)

unfoldable pub bracketed : Text → Text × Option Text
bracketed [] = ([], none)
bracketed (c ∷ s) = if c == b'[' then around_bracket (split_at b']' s) else ([], none)

-- The node and the service of any other host; a second colon leaves the service at the first one.
abbrev pub around_colon : Option (Text × Text) → Text × Option Text
around_colon none = ([], none)
around_colon (some (u, v)) = if has_byte b':' v then ([], some (b':' ∷ v)) else (u, some v)

unfoldable pub plain_host : Text → Text × Option Text
plain_host host = around_colon (split_at b':' host)

abbrev pub or_host : Text → Text × Option Text → Text × Option Text
or_host host ([], service) = (host, service)
or_host host (c ∷ node, service) = (c ∷ node, service)

abbrev pub or_plain : Text → Text × Option Text → Text × Option Text
or_plain host ([], service) = or_host host (plain_host host)
or_plain host (c ∷ node, service) = (c ∷ node, service)

-- What Lookup hands to getaddrinfo.
unfoldable pub split_host : Text → Text × Option Text
split_host host = or_plain host (bracketed host)

-- Lookup, with getaddrinfo as an argument, appends the addresses that it answers.
unfoldable pub lookup :
    {A : Type 0} → (Text → Option Text → Option (List A)) → List A → Text → List A × Bool
lookup getaddrinfo res host =
    let (node, service) = split_host host in
    elim (getaddrinfo node service) [ none ↦ (res, false) | some found ↦ (res ++ found, true) ]

-- LookupAny: the first of a new list; `none` is a null pointer or an access out of range.
unfoldable pub lookup_any : {A : Type 0} → (Text → Option Text → Option (List A)) → Text → Option A
lookup_any getaddrinfo host =
    let (res, b) = lookup getaddrinfo [] host in
    elim res [ [] ↦ none | a ∷ rest ↦ if b then some a else none ]
