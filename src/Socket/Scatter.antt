-- ===== src/Socket/Scatter.antt =====
-- Bytes that are stored through the iovecs of getWriteBuffers end up where write would put them
-- (src/bytearray.cpp and src/socket_stream.cpp).
use mathlib.Core.List.{append_assoc}
use cool.Base.{
  ℕ, zero, suc, ◌+◌, ◌-◌, ◌≤◌, ◌≡◌, refl, sym, ap, ◌∙◌, ◌⊎◌, inl, inr, Bool, true, false, List, [],
  ◌∷◌, ◌++◌, Option, none, some, arith, length, take, drop, take-append-drop, length-drop,
  get_elem?, set, overwrite, leb, leb→le, ◌==◌, if◌then◌else◌,
}
use cool.ByteArray.{sub_size, write_chain}
use cool.ByteArray.Flat.{overwrite-nil, take_all, drop_all}
use cool.ByteArray.Contents.{drop-nil}
use cool.ByteArray.Buffers.{Iovec, iov_chain}
use cool.ByteArray.Buffers.Gather.{node_or_nil, drop_head}
use cool.Socket.Arrays.{scattered}

abbrev node_at_index : List (List ℕ) → ℕ → List ℕ
node_at_index nodes i = node_or_nil (get_elem? nodes i)

set_same : (nodes : List (List ℕ)) (i : ℕ) → set nodes i (node_at_index nodes i) ≡ nodes
set_same [] i = refl
set_same (x ∷ nodes) zero = refl
set_same (x ∷ nodes) (suc i) = ap (◌∷◌ x) (set_same nodes i)

take-nil : (n : ℕ) → take {A = ℕ} n [] ≡ []
take-nil zero = refl
take-nil (suc n) = refl

scattered-nil : (nodes : List (List ℕ)) (vs : List Iovec) → scattered nodes vs [] ≡ nodes
unfolding scattered
scattered-nil nodes [] = refl
scattered-nil nodes (v ∷ vs) =
    rw
      (
        take-nil v.len,
        drop-nil v.len,
        overwrite-nil v.offset (node_at_index nodes v.node),
        set_same nodes v.node,
      )
      (scattered-nil nodes vs)

set_split :
    (nodes : List (List ℕ)) (i : ℕ) (x y : List ℕ) (ns : List (List ℕ))
    → drop i nodes ≡ x ∷ ns
    → (set nodes i y ≡ take i nodes ++ y ∷ ns)
      × (drop (suc i) (set nodes i y) ≡ ns)
      × (take (suc i) (set nodes i y) ≡ take i nodes ++ y ∷ [])
set_split [] zero x y ns h = absurd cc
set_split [] (suc i) x y ns h = absurd cc
set_split (z ∷ nodes) zero x y ns h = let same : nodes ≡ ns = cc in (ap (◌∷◌ y) same, same, refl)
set_split (z ∷ nodes) (suc i) x y ns h =
    let (a, b, c) = set_split nodes i x y ns h in (ap (◌∷◌ z) a, b, ap (◌∷◌ z) c)

iov_cases :
    (fits : Bool) (one vs : List Iovec) (rest : Option (List Iovec)) (v : Iovec)
    → (if fits then some one else elim rest [ none ↦ none | some ws ↦ some (v ∷ ws) ]) ≡ some vs
    → ((fits ≡ true) × (one ≡ vs))
      ⊎ ((fits ≡ false) × ((ws : List Iovec) × (rest ≡ some ws) × (v ∷ ws ≡ vs)))
iov_cases true one vs rest v e = inl (refl, cc)
iov_cases false one vs none v e = absurd cc
iov_cases false one vs (some ws) v e = inr (refl, (ws, refl, cc))

abbrev Chain : Type 0
Chain = Option (List (List ℕ) × ℕ)

nodes_of : Chain → List (List ℕ)
nodes_of none = []
nodes_of (some p) = p.0

write_cases :
    (fits : Bool) (one : List (List ℕ) × ℕ) (rest : Chain) (y : List ℕ) (ns' : List (List ℕ))
    (moved : ℕ)
    → (if fits then some one else elim rest [ none ↦ none | some (ws, k) ↦ some (y ∷ ws, suc k) ])
      ≡ some (ns', moved)
    → ((fits ≡ true) × (one.0 ≡ ns'))
      ⊎ ((fits ≡ false) × ((ws : List (List ℕ)) × (k : ℕ) × (rest ≡ some (ws, k)) × (y ∷ ws ≡ ns')))
unfolding nodes_of
write_cases true one rest y ns' moved e = inl (refl, ap nodes_of e)
write_cases false one none y ns' moved e = absurd cc
write_cases false one (some (ws, k)) y ns' moved e = inr (refl, (ws, k, refl, ap nodes_of e))

too_long : (a n c : ℕ) → a ≤ n → leb a c ≡ false → leb n c ≡ true → ⊥
too_long a n c l f g = ground arith

-- All bytes fit into the first iovec.
one_node :
    (nodes ns : List (List ℕ)) (i npos len : ℕ) (b bytes : List ℕ) (ws : List Iovec)
    → drop i nodes ≡ b ∷ ns
    → length bytes ≤ len
    → scattered nodes (record { node = i; offset = npos; len = len } ∷ ws) bytes
      ≡ take i nodes ++ overwrite npos bytes b ∷ ns
unfolding scattered
one_node nodes ns i npos len b bytes ws d l =
    let (here, _) = drop_head nodes i b ns d in
    let (all, _, _) = set_split nodes i b (overwrite npos bytes b) ns d in
    rw (here, take_all len bytes l, drop_all len bytes l)
      (scattered-nil (set nodes i (overwrite npos bytes b)) ws ∙ all)

-- The bytes go on behind the first iovec, which fills its node.
more_nodes :
    (nodes ns ws' : List (List ℕ)) (i npos len : ℕ) (b bytes : List ℕ) (ws : List Iovec)
    → drop i nodes ≡ b ∷ ns
    → scattered (set nodes i (overwrite npos (take len bytes) b)) ws (drop len bytes)
      ≡ take (suc i) (set nodes i (overwrite npos (take len bytes) b)) ++ ws'
    → scattered nodes (record { node = i; offset = npos; len = len } ∷ ws) bytes
      ≡ take i nodes ++ overwrite npos (take len bytes) b ∷ ws'
unfolding scattered
more_nodes nodes ns ws' i npos len b bytes ws d h =
    let (here, _) = drop_head nodes i b ns d in
    let y = overwrite npos (take len bytes) b in
    let (_, _, front) = set_split nodes i b y ns d in
    rw here (h ∙ ap (λ t. t ++ ws') front ∙ append_assoc (take i nodes) (y ∷ []) ws')

pub scattered-write_chain :
    (nodes ns : List (List ℕ)) (i npos n : ℕ) (vs : List Iovec) (xs : List ℕ) (ns' : List (List ℕ))
    (moved : ℕ)
    → drop i nodes ≡ ns
    → iov_chain ns i npos n ≡ some vs
    → length xs ≤ n
    → write_chain ns npos xs ≡ some (ns', moved)
    → scattered nodes vs xs ≡ take i nodes ++ ns'
unfolding write_chain iov_chain scattered nodes_of
scattered-write_chain nodes ns i npos n vs [] ns' moved d e l w =
    let same : ns ≡ ns' = ap nodes_of w in
    scattered-nil nodes vs ∙ sym (take-append-drop i nodes) ∙ ap (λ t. take i nodes ++ t) (d ∙ same)
scattered-write_chain nodes ns i npos zero vs (x ∷ xs) ns' moved d e l w = absurd (omega arith)
scattered-write_chain nodes [] i npos (suc s) vs (x ∷ xs) ns' moved d e l w = absurd cc
scattered-write_chain nodes (b ∷ ns) i npos (suc s) vs (x ∷ xs) ns' moved d e l w =
    let bytes = x ∷ xs in
    let ncap = sub_size (length b) npos in
    let y = overwrite npos (take ncap bytes) b in
    elim (write_cases (leb (length bytes) ncap)
      (overwrite npos bytes b ∷ ns, if length b == npos + length bytes then 1 else 0)
      (write_chain ns 0 (drop ncap bytes)) y ns' moved w) [
        | inl (f, q) ↦
            elim (iov_cases (leb (suc s) ncap)
              (record { node = i; offset = npos; len = suc s } ∷ []) vs
              (iov_chain ns (suc i) 0 (suc s - ncap))
              (record { node = i; offset = npos; len = ncap }) e) [
                | inl (g, r) ↦
                    ap (λ u. scattered nodes u bytes) (sym r)
                    ∙ one_node nodes ns i npos (suc s) b bytes [] d l
                    ∙ ap (λ t. take i nodes ++ t) q
                | inr (g, (ws, _, r)) ↦
                    ap (λ u. scattered nodes u bytes) (sym r)
                    ∙ one_node nodes ns i npos ncap b bytes ws d (leb→le _ _ f)
                    ∙ ap (λ t. take i nodes ++ t) q
              ]
        | inr (f, (ws', k, c, q)) ↦
            elim (iov_cases (leb (suc s) ncap)
              (record { node = i; offset = npos; len = suc s } ∷ []) vs
              (iov_chain ns (suc i) 0 (suc s - ncap))
              (record { node = i; offset = npos; len = ncap }) e) [
                | inl (g, r) ↦ absurd (too_long (length bytes) (suc s) ncap l f g)
                | inr (g, (ws, h, r)) ↦
                    let (_, behind, _) = set_split nodes i b y ns d in
                    ap (λ u. scattered nodes u bytes) (sym r)
                    ∙ more_nodes nodes ns ws' i npos ncap b bytes ws d (
                        scattered-write_chain (set nodes i y) ns (suc i) 0 (suc s - ncap) ws
                          (drop ncap bytes) ws' k behind h
                          (omega (arith, l, length-drop ncap bytes)) c)
                    ∙ ap (λ t. take i nodes ++ t) q
              ]
      ]
