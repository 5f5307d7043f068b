-- ===== src/Address/Hosts.antt =====
-- How Lookup of src/address.cpp cuts a host text.
use cool.Base.{
  ℕ, ◌≡◌, refl, ap, ◌∙◌, true, false, [], ◌∷◌, ◌++◌, none, some, arith, ◌==◌, if◌then◌else◌, All,
}
use cool.Base.Text.{Text}
use cool.Address.{
  or_plain, around_bracket, around_colon, split_at, has_byte, after_colon, bracketed, plain_host,
  or_host, split_host,
}

abbrev pub Without : ℕ → Text → Type 0
Without c = All (λ x. (x == c) ≡ false)

split_at-append : (c : ℕ) (u v : Text) → Without c u → split_at c (u ++ c ∷ v) ≡ some (u, v)
unfolding split_at
split_at-append c [] v h = let e : (c == c) ≡ true = ground arith in rw e refl
split_at-append c (x ∷ u) v h = rw (h.0, split_at-append c u v h.1) refl

split_at-Without : (c : ℕ) (u : Text) → Without c u → split_at c u ≡ none
unfolding split_at
split_at-Without c [] h = refl
split_at-Without c (x ∷ u) h = rw (h.0, split_at-Without c u h.1) refl

has_byte-Without : (c : ℕ) (u : Text) → Without c u → has_byte c u ≡ false
has_byte-Without c u h = ap (λ t. elim t [ none ↦ false | some p ↦ true ]) (split_at-Without c u h)

has_byte-append : (c : ℕ) (u v : Text) → Without c u → has_byte c (u ++ c ∷ v) ≡ true
has_byte-append c u v h =
    ap (λ t. elim t [ none ↦ false | some p ↦ true ]) (split_at-append c u v h)

not_bracketed : (c : ℕ) (s : Text) → (c == b'[') ≡ false → bracketed (c ∷ s) ≡ ([], none)
unfolding bracketed
not_bracketed c s h = rw h refl

-- The host in brackets, whose node is not empty.
bracket_lem :
    (c : ℕ) (node rest : Text)
    → Without b']' (c ∷ node)
    → split_host (b'[' ∷ c ∷ node ++ b']' ∷ rest) ≡ (c ∷ node, after_colon rest)
unfolding split_host bracketed
bracket_lem c node rest h =
    ap (λ t. or_plain (b'[' ∷ c ∷ node ++ b']' ∷ rest) (around_bracket t))
      (split_at-append b']' (c ∷ node) rest h)

plain_lem :
    (c : ℕ) (s : Text)
    → (c == b'[') ≡ false
    → split_host (c ∷ s) ≡ or_host (c ∷ s) (plain_host (c ∷ s))
unfolding split_host
plain_lem c s h = rw (split_host, not_bracketed c s h) refl

no_colon_lem : (host : Text) → Without b':' host → plain_host host ≡ ([], none)
unfolding plain_host
no_colon_lem host h = ap around_colon (split_at-Without b':' host h)

one_colon_lem :
    (u v : Text) → Without b':' u → Without b':' v → plain_host (u ++ b':' ∷ v) ≡ (u, some v)
unfolding plain_host
one_colon_lem u v h l =
    let q : has_byte b':' v ≡ false = has_byte-Without b':' v l in
    let p : plain_host (u ++ b':' ∷ v) ≡ around_colon (some (u, v)) =
      ap around_colon (split_at-append b':' u v h) in
    p ∙ ap (λ b. if b then ([], some (b':' ∷ v)) else (u, some v)) q

two_colons_lem :
    (u v w : Text)
    → Without b':' u
    → Without b':' v
    → plain_host (u ++ b':' ∷ (v ++ b':' ∷ w)) ≡ ([], some (b':' ∷ (v ++ b':' ∷ w)))
unfolding plain_host
two_colons_lem u v w h l =
    let q : has_byte b':' (v ++ b':' ∷ w) ≡ true = has_byte-append b':' v w l in
    let p : plain_host (u ++ b':' ∷ (v ++ b':' ∷ w)) ≡ around_colon (some (u, v ++ b':' ∷ w)) =
      ap around_colon (split_at-append b':' u (v ++ b':' ∷ w) h) in
    p ∙ ap (λ b. if b then ([], some (b':' ∷ (v ++ b':' ∷ w))) else (u, some (v ++ b':' ∷ w))) q

-- For a host c ∷ s without a colon that begins with no bracket, Lookup takes it for the node, with no
-- service or with the service v behind a colon; a service v that has itself a colon, as in an IPv6
-- address without brackets, leaves the whole text as the node and the service at the first colon.
-- A node in brackets, without a closing one, is taken out of them, with the service behind a colon.
pub split_host_lem :
    (c : ℕ) (s v w : Text)
    → (c == b'[') ≡ false
    → Without b':' (c ∷ s)
    → Without b']' (c ∷ s)
    → Without b':' v
    → (split_host (c ∷ s) ≡ (c ∷ s, none))
      × (split_host (c ∷ s ++ b':' ∷ v) ≡ (c ∷ s, some v))
      × (split_host (c ∷ s ++ b':' ∷ (v ++ b':' ∷ w))
          ≡ (c ∷ s ++ b':' ∷ (v ++ b':' ∷ w), some (b':' ∷ (v ++ b':' ∷ w))))
      × (split_host (b'[' ∷ c ∷ s ++ b']' ∷ []) ≡ (c ∷ s, none))
      × (split_host (b'[' ∷ c ∷ s ++ b']' ∷ b':' ∷ w) ≡ (c ∷ s, some w))
split_host_lem c s v w b h k l = (
  plain_lem c s b ∙ ap (or_host (c ∷ s)) (no_colon_lem (c ∷ s) h),
  plain_lem c (s ++ b':' ∷ v) b ∙ ap (or_host (c ∷ s ++ b':' ∷ v)) (one_colon_lem (c ∷ s) v h l),
  plain_lem c (s ++ b':' ∷ (v ++ b':' ∷ w)) b
      ∙ ap (or_host (c ∷ s ++ b':' ∷ (v ++ b':' ∷ w))) (two_colons_lem (c ∷ s) v w h l),
  bracket_lem c s [] k,
  bracket_lem c s (b':' ∷ w) k,
)
