-- ===== src/Config/Containers.antt =====
-- The containers of the standard library that src/config.h converts, as the lists of their elements:
-- how an element is put in, and for which lists the elements put in again in order give the container.
use mathlib.Core.List.{append_assoc, append-nil}
use cool.Base.{
  ◌≡◌, refl, sym, ap, ◌∙◌, Bool, true, false, ◌||◌, List, [], ◌∷◌, ◌++◌, if◌then◌else◌, All,
}

module _ {T : Type 0} where
  -- The elements put in one after the other.
  unfoldable pub insert_each : (List T → T → List T) → List T → List T → List T
  insert_each insert c [] = c
  insert_each insert c (t ∷ ts) = insert_each insert (insert c t) ts

  -- vector and list.
  unfoldable pub push_back : List T → T → List T
  push_back c t = c ++ t ∷ []

  -- set and map, where `lt` compares elements or their keys.
  unfoldable pub set_insert : (T → T → Bool) → List T → T → List T
  set_insert lt [] t = t ∷ []
  set_insert lt (x ∷ c) t =
      let rest = set_insert lt c t in
      if lt t x then t ∷ x ∷ c else (if lt x t then x ∷ rest else x ∷ c)

  unfoldable pub any_eq : (T → T → Bool) → T → List T → Bool
  any_eq eq t [] = false
  any_eq eq t (x ∷ c) = eq x t || any_eq eq t c

  -- unordered_set and unordered_map, in the order of insertion.
  unfoldable pub unordered_insert : (T → T → Bool) → List T → T → List T
  unordered_insert eq c t = if any_eq eq t c then c else c ++ t ∷ []

  -- Each element in a relation to all behind it.
  abbrev pub Pairs : (T → T → Type 0) → List T → Type 0
  Pairs R [] = Unit {0}
  Pairs R (t ∷ ts) = All (R t) ts × Pairs R ts

  abbrev pub Below : (T → T → Bool) → T → T → Type 0
  Below lt a b = (lt a b ≡ true) × (lt b a ≡ false)

  abbrev pub Apart : (T → T → Bool) → T → T → Type 0
  Apart eq a b = eq a b ≡ false

  set_insert_last :
      (lt : T → T → Bool) (c : List T) (t : T)
      → All (λ a. Below lt a t) c
      → set_insert lt c t ≡ c ++ t ∷ []
  unfolding set_insert
  set_insert_last lt [] t h = refl
  set_insert_last lt (x ∷ c) t h = rw (h.0.1, h.0.0) (ap (◌∷◌ x) (set_insert_last lt c t h.1))

  none_eq :
      (eq : T → T → Bool) (c : List T) (t : T) → All (λ a. Apart eq a t) c → any_eq eq t c ≡ false
  unfolding any_eq
  none_eq eq [] t h = refl
  none_eq eq (x ∷ c) t h = rw h.0 (none_eq eq c t h.1)

  unordered_insert_last :
      (eq : T → T → Bool) (c : List T) (t : T)
      → All (λ a. Apart eq a t) c
      → unordered_insert eq c t ≡ c ++ t ∷ []
  unfolding unordered_insert
  unordered_insert_last eq c t h = rw (none_eq eq c t h) refl

  All-snoc : (P : T → Type 0) (c : List T) (t : T) → All P c → P t → All P (c ++ t ∷ [])
  All-snoc P [] t h k = (k, tt)
  All-snoc P (x ∷ c) t h k = (h.0, All-snoc P c t h.1 k)

  -- All of the first list in the relation to all of the second.
  abbrev Before : (T → T → Type 0) → List T → List T → Type 0
  Before R c ts = All (λ t. All (λ a. R a t) c) ts

  Before-snoc :
      (R : T → T → Type 0) (c ts : List T) (t : T)
      → Before R c ts
      → All (R t) ts
      → Before R (c ++ t ∷ []) ts
  Before-snoc R c [] t h k = tt
  Before-snoc R c (x ∷ ts) t h k = (All-snoc (λ a. R a x) c t h.0 k.0, Before-snoc R c ts t h.1 k.1)

  -- Elements that each go to the end.
  insert_each_lem :
      (insert : List T → T → List T) (R : T → T → Type 0)
      → ((c : List T) (t : T) → All (λ a. R a t) c → insert c t ≡ c ++ t ∷ [])
      → (ts c : List T) → Before R c ts
      → Pairs R ts
      → insert_each insert c ts ≡ c ++ ts
  unfolding insert_each
  insert_each_lem insert R last [] c b p = sym (append-nil c)
  insert_each_lem insert R last (t ∷ ts) c b p =
      ap (λ l. insert_each insert l ts) (last c t b.0)
      ∙ insert_each_lem insert R last ts (c ++ t ∷ []) (Before-snoc R c ts t b.1 p.0) p.1
      ∙ append_assoc c (t ∷ []) ts

  Before-nil : (R : T → T → Type 0) (ts : List T) → Before R [] ts
  Before-nil R [] = tt
  Before-nil R (t ∷ ts) = (tt, Before-nil R ts)

  pub set_rebuilt :
      (lt : T → T → Bool) (c : List T) → Pairs (Below lt) c → insert_each (set_insert lt) [] c ≡ c
  set_rebuilt lt c p =
      insert_each_lem (set_insert lt) (Below lt) (set_insert_last lt) c [] (Before-nil (Below lt) c)
        p

  pub unordered_rebuilt :
      (eq : T → T → Bool) (c : List T)
      → Pairs (Apart eq) c
      → insert_each (unordered_insert eq) [] c ≡ c
  unordered_rebuilt eq c p =
      insert_each_lem (unordered_insert eq) (Apart eq) (unordered_insert_last eq) c []
        (Before-nil (Apart eq) c) p

  pub push_back_rebuilt : (c : List T) → insert_each push_back [] c ≡ c
  unfolding push_back
  push_back_rebuilt c =
      insert_each_lem push_back (λ a b. Unit {0}) (λ d t h. refl) c [] (all_free c) (pairs_free c)
    where
      free : (d : List T) → All (λ a. Unit {0}) d
      free [] = tt
      free (x ∷ d) = (tt, free d)

      all_free : (ts : List T) → Before (λ a b. Unit {0}) [] ts
      all_free ts = Before-nil (λ a b. Unit {0}) ts

      pairs_free : (ts : List T) → Pairs (λ a b. Unit {0}) ts
      pairs_free [] = tt
      pairs_free (t ∷ ts) = (free ts, pairs_free ts)
