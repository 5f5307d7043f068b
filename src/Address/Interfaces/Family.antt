-- ===== src/Address/Interfaces/Family.antt =====
-- The families of the addresses that GetInterfaceAddress of src/address.cpp adds.
use mathlib.Core.Path.{subst}
use cool.Base.{
  ℕ, ◌≡◌, refl, Bool, true, false, not, ◌&&◌, List, [], ◌∷◌, ◌++◌, ◌⊎◌, Option, none, some, ◌==◌,
  if◌then◌else◌, All, arith, Bool-cases, inl, inr, ap, sym,
}
use cool.Base.Text.{Text, text_eq}
use cool.Address.Interfaces.{
  af_unspec, Sockaddr, family_of, is_ip, Netmask, prefix_of, Interface, round_on, round, rounds,
  is_filled, get_interfaces, equal_range, is_any, any_addresses, get_interface,
}

abbrev OfFamily : ℕ → Sockaddr × ℕ → Type 0
OfFamily family e = family_of e.0 ≡ family

abbrev NamedOfFamily : ℕ → Text × Sockaddr × ℕ → Type 0
NamedOfFamily family e = family_of e.1 ≡ family

All-append : {A : Type 0} (P : A → Type 0) (xs ys : List A) → All P xs → All P ys → All P (xs ++ ys)
All-append P [] ys h k = k
All-append P (x ∷ xs) ys h k = (h.0, All-append P xs ys h.1 k)

or_nil : Option (List (Text × Sockaddr × ℕ)) → List (Text × Sockaddr × ℕ)
or_nil none = []
or_nil (some es) = es

-- A round adds nothing, or an address that is not skipped.
round_cases :
    (skip other : Bool) (o : Option ℕ) (name : Text) (a : Sockaddr)
    (es : List (Text × Sockaddr × ℕ))
    → (if skip
        then some []
        else (if other
            then some []
            else elim o [ none ↦ none | some n ↦ some ((name, a, n) ∷ []) ]))
      ≡ some es
    → (es ≡ []) ⊎ ((skip ≡ false) × ((n : ℕ) × (es ≡ (name, a, n) ∷ [])))
unfolding or_nil
round_cases true other o name a es e = inl (sym (ap or_nil e))
round_cases false true o name a es e = inl (sym (ap or_nil e))
round_cases false false none name a es e = absurd cc
round_cases false false (some n) name a es e = inr (refl, (n, sym (ap or_nil e)))

not_skipped :
    (family other : ℕ)
    → (family == af_unspec) ≡ false
    → not (family == af_unspec) && not (family == other) ≡ false
    → other ≡ family
not_skipped family other f e = ground arith

round_on_family :
    (family : ℕ) (name : Text) (mask : Netmask) (addr : Option Sockaddr)
    (es : List (Text × Sockaddr × ℕ))
    → (family == af_unspec) ≡ false
    → round_on family name mask addr ≡ some es
    → All (NamedOfFamily family) es
unfolding round_on
round_on_family family name mask none es f e = absurd (ground arith)
round_on_family family name mask (some a) es f e =
    elim (round_cases (not (family == af_unspec) && not (family == family_of a)) (not (is_ip a))
      (prefix_of a mask) name a es e) [
        | inl q ↦ subst (All (NamedOfFamily family)) (sym q) tt
        | inr (k, (n, q)) ↦
            subst (All (NamedOfFamily family)) (sym q) (not_skipped family (family_of a) f k, tt)
      ]

append_some :
    (o p : Option (List (Text × Sockaddr × ℕ))) (es : List (Text × Sockaddr × ℕ))
    → elim o [ none ↦ none | some xs ↦ elim p [ none ↦ none | some ys ↦ some (xs ++ ys) ] ]
      ≡ some es
    → (xs : List (Text × Sockaddr × ℕ)) × (ys : List (Text × Sockaddr × ℕ)) × (o ≡ some xs)
      × (p ≡ some ys)
      × (xs ++ ys ≡ es)
unfolding or_nil
append_some none p es e = absurd cc
append_some (some xs) none es e = absurd cc
append_some (some xs) (some ys) es e = (xs, ys, refl, refl, ap or_nil e)

rounds_family :
    (family : ℕ) (is : List Interface) (es : List (Text × Sockaddr × ℕ))
    → (family == af_unspec) ≡ false
    → rounds family is ≡ some es
    → All (NamedOfFamily family) es
unfolding rounds round or_nil
rounds_family family [] es f e = subst (All (NamedOfFamily family)) (ap or_nil e) tt
rounds_family family (i ∷ is) es f e =
    let (xs, ys, p, q, r) = append_some (round family i) (rounds family is) es e in
    subst (All (NamedOfFamily family)) r (
      All-append (NamedOfFamily family) xs ys
        (round_on_family family i.name i.netmask i.addr xs f p) (rounds_family family is ys f q))

equal_range_family :
    (family : ℕ) (iface : Text) (es : List (Text × Sockaddr × ℕ))
    → All (NamedOfFamily family) es
    → All (OfFamily family) (equal_range iface es)
unfolding equal_range
equal_range_family family iface [] h = tt
equal_range_family family iface ((name, a, n) ∷ es) h = elim (Bool-cases (text_eq name iface)) [
  | inl e ↦ rw e (h.0, equal_range_family family iface es h.1)
  | inr e ↦ rw e (equal_range_family family iface es h.1)
]

any_addresses_family :
    (family : ℕ) → (family == af_unspec) ≡ false → All (OfFamily family) (any_addresses family)
unfolding any_addresses family_of
any_addresses_family family f = ground arith

get_interface_cases :
    (iface : Text) (o : Option (List (Text × Sockaddr × ℕ) × Bool)) (r : List (Sockaddr × ℕ) × Bool)
    → elim o [
      | none ↦ none
      | some (es, ok) ↦ if ok then some (equal_range iface es, true) else some ([], false)
    ]
      ≡ some r
    → (r.0 ≡ [])
      ⊎ ((es : List (Text × Sockaddr × ℕ)) × (o ≡ some (es, true)) × (equal_range iface es ≡ r.0))
get_interface_cases iface none r e = absurd cc
get_interface_cases iface (some (es, true)) r e = inr (es, refl, ap first e)
  where
    first : Option (List (Sockaddr × ℕ) × Bool) → List (Sockaddr × ℕ)
    first none = []
    first (some p) = p.0
get_interface_cases iface (some (es, false)) r e = inl (sym (ap first e))
  where
    first : Option (List (Sockaddr × ℕ) × Bool) → List (Sockaddr × ℕ)
    first none = []
    first (some p) = p.0

interfaces_cases :
    (o : Option (List (Text × Sockaddr × ℕ))) (es : List (Text × Sockaddr × ℕ)) (ok : Bool)
    → ◌≡◌ {A = Option (List (Text × Sockaddr × ℕ) × Bool)}
        (elim o [ none ↦ none | some xs ↦ some (xs, is_filled xs) ])
        (some (es, ok))
    → o ≡ some es
interfaces_cases none es ok e = absurd cc
interfaces_cases (some xs) es ok e = ap some (ap first e)
  where
    first : Option (List (Text × Sockaddr × ℕ) × Bool) → List (Text × Sockaddr × ℕ)
    first none = xs
    first (some p) = p.0

get_interfaces_family :
    (family : ℕ) (answer : Option (List Interface)) (es : List (Text × Sockaddr × ℕ))
    → (family == af_unspec) ≡ false
    → get_interfaces family answer ≡ some (es, true)
    → All (NamedOfFamily family) es
unfolding get_interfaces
get_interfaces_family family none es f e =
    let q : ◌≡◌ {A = Bool} false true = ap filled e in absurd cc
  where
    filled : Option (List (Text × Sockaddr × ℕ) × Bool) → Bool
    filled none = true
    filled (some p) = p.1
get_interfaces_family family (some is) es f e =
    rounds_family family is es f (interfaces_cases (rounds family is) es true e)

-- Asked for a family, GetInterfaceAddress for one interface, `*` and the empty name included, adds
-- addresses of this family only, whatever getifaddrs answers, unless it follows a null pointer.
pub get_interface_family :
    (iface : Text) (family : ℕ) (answer : Option (List Interface)) (r : List (Sockaddr × ℕ) × Bool)
    → (family == af_unspec) ≡ false
    → get_interface iface family answer ≡ some r
    → All (λ e. family_of e.0 ≡ family) r.0
unfolding get_interface
get_interface_family iface family answer r f e = elim (Bool-cases (is_any iface)) [
  | inl k ↦
      let q : ◌≡◌ {A = Option (List (Sockaddr × ℕ) × Bool)} (some (any_addresses family, true))
          (some r) =
        rw (get_interface, k) at e in
      subst (All (OfFamily family)) (ap found q) (any_addresses_family family f)
  | inr k ↦
      elim (get_interface_cases iface (get_interfaces family answer) r
        (rw (get_interface, k) at e)) [
          | inl q ↦ subst (All (OfFamily family)) (sym q) tt
          | inr (es, h, q) ↦
              subst (All (OfFamily family)) q
                (equal_range_family family iface es (get_interfaces_family family answer es f h))
        ]
]
  where
    found : Option (List (Sockaddr × ℕ) × Bool) → List (Sockaddr × ℕ)
    found none = []
    found (some p) = p.0
