-- ===== src/Address/Ordered.antt =====
-- operator< and operator== of src/address.cpp, on the bytes of two addresses.
use cool.Base.{
  ℕ, suc, ◌≡◌, refl, sym, ap, ◌∙◌, Bool, true, false, ◌&&◌, ◌||◌, List, [], ◌∷◌, arith, length, ltb,
  ◌==◌, if◌then◌else◌,
}
use cool.Address.{Sign, negative, same, positive, memcmp, less, equal}

-- The lexicographic order, in which a proper prefix comes first.
unfoldable pub lexicographic : List ℕ → List ℕ → Bool
lexicographic [] [] = false
lexicographic [] (y ∷ b) = true
lexicographic (x ∷ a) [] = false
lexicographic (x ∷ a) (y ∷ b) = ltb x y || (x == y && lexicographic a b)

decide : Sign → Bool → Bool
decide negative s = true
decide same s = s
decide positive s = false

abbrev shorter : List ℕ → List ℕ → ℕ
shorter a b = if ltb (length b) (length a) then length b else length a

less-decide :
    (a b : List ℕ) → less a b ≡ decide (memcmp (shorter a b) a b) (ltb (length a) (length b))
unfolding less decide
less-decide a b =
    elim (memcmp (shorter a b) a b)
      as (λ m.
        elim m [ negative ↦ true | positive ↦ false | same ↦ ltb (length a) (length b) ]
        ≡ decide m (ltb (length a) (length b))) [ negative ↦ refl | same ↦ refl | positive ↦ refl ]

memcmp_step :
    (n x y : ℕ) (a b : List ℕ) (s : Bool)
    → decide (memcmp (suc n) (x ∷ a) (y ∷ b)) s ≡ (ltb x y || (x == y && decide (memcmp n a b) s))
unfolding memcmp decide
memcmp_step n x y a b s = ground arith

shorter_step : (x y : ℕ) (a b : List ℕ) → shorter (x ∷ a) (y ∷ b) ≡ suc (shorter a b)
shorter_step x y a b = ground arith

less-lexicographic : (a b : List ℕ) → less a b ≡ lexicographic a b
unfolding less memcmp lexicographic
less-lexicographic [] [] = refl
less-lexicographic [] (y ∷ b) = ground arith
less-lexicographic (x ∷ a) [] = ground arith
less-lexicographic (x ∷ a) (y ∷ b) =
    let l : ltb (length (x ∷ a)) (length (y ∷ b)) ≡ ltb (length a) (length b) = ground arith in
    less-decide (x ∷ a) (y ∷ b)
    ∙ rw (shorter_step x y a b, l) (memcmp_step (shorter a b) x y a b (ltb (length a) (length b)))
    ∙ ap (λ t. ltb x y || (x == y && t)) (sym (less-decide a b) ∙ less-lexicographic a b)

equal_eq : (a b : List ℕ) → equal a b ≡ true → a ≡ b
unfolding equal memcmp
equal_eq [] [] h = refl
equal_eq [] (y ∷ b) h = absurd (ground arith)
equal_eq (x ∷ a) [] h = absurd (ground arith)
equal_eq (x ∷ a) (y ∷ b) h =
    let p : x ≡ y = ground arith in
    let q : equal a b ≡ true = ground arith in rw p (ap (◌∷◌ y) (equal_eq a b q))

irreflexive : (a : List ℕ) → lexicographic a a ≡ false
unfolding lexicographic
irreflexive [] = refl
irreflexive (x ∷ a) = ground (arith, irreflexive a)

transitive :
    (a b c : List ℕ)
    → lexicographic a b ≡ true
    → lexicographic b c ≡ true
    → lexicographic a c ≡ true
unfolding lexicographic
transitive [] [] c h k = absurd (cc)
transitive [] (y ∷ b) [] h k = absurd (cc)
transitive [] (y ∷ b) (z ∷ c) h k = refl
transitive (x ∷ a) [] c h k = absurd (cc)
transitive (x ∷ a) (y ∷ b) [] h k = absurd (cc)
transitive (x ∷ a) (y ∷ b) (z ∷ c) h k = ground (arith, transitive a b c)

total : (a b : List ℕ) → (lexicographic a b || (equal a b || lexicographic b a)) ≡ true
unfolding lexicographic equal memcmp
total [] [] = refl
total [] (y ∷ b) = refl
total (x ∷ a) [] = ground arith
total (x ∷ a) (y ∷ b) = ground (arith, total a b)

-- operator< is the lexicographic order of the bytes, in which the smaller byte or the proper prefix
-- comes first, and this is a strict and total order with operator== as its equality: no address is
-- below itself, the order is transitive, two addresses are equal or one is below the other, and
-- equal addresses have the same bytes.
pub less_lem :
    (a b c : List ℕ)
    → (less a b ≡ lexicographic a b)
      × (less a a ≡ false)
      × (less a b ≡ true → less b c ≡ true → less a c ≡ true)
      × ((less a b || (equal a b || less b a)) ≡ true)
      × (equal a b ≡ true → a ≡ b)
less_lem a b c =
    let e = less-lexicographic a b in
    let f = less-lexicographic b c in
    (
      e,
      less-lexicographic a a ∙ irreflexive a,
      (λ h k. less-lexicographic a c ∙ transitive a b c (sym e ∙ h) (sym f ∙ k)),
      rw (e, less-lexicographic b a) (total a b),
      equal_eq a b,
    )
