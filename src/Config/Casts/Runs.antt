-- ===== src/Config/Casts/Runs.antt =====
-- The conversions over a small model of yaml-cpp, and the witnesses.
use cool.Base.{
  ℕ, zero, suc, ◌≡◌, refl, ap, ◌∙◌, Bool, true, false, List, [], ◌∷◌, ◌++◌, some, map, ltb,
}
use cool.Base.Text.{Text, codes, text_eq}
use cool.Config.Casts.{Yaml, Cast, vector_cast, list_cast, set_cast, unordered_set_cast}
use cool.Config.Casts.RoundTrip.{Returns, sequences_return}

-- A node is its text; a zero byte ends each part, and other bytes are one more.
join : List Text → Text
join [] = []
join (y ∷ ys) = map suc y ++ zero ∷ join ys

push : ℕ → List Text → List Text
push c [] = (c ∷ []) ∷ []
push c (t ∷ ts) = (c ∷ t) ∷ ts

split : Text → List Text
split [] = []
split (zero ∷ s) = [] ∷ split s
split (suc c ∷ s) = push c (split s)

split_part : (y s : Text) → split (map suc y ++ zero ∷ s) ≡ y ∷ split s
unfolding split push
split_part [] s = refl
split_part (c ∷ y) s = ap (push c) (split_part y s)

split-join : (ys : List Text) → split (join ys) ≡ ys
unfolding split join
split-join [] = refl
split-join (y ∷ ys) = split_part y (join ys) ∙ ap (◌∷◌ y) (split-join ys)

flatten : List (Text × Text) → List Text
flatten [] = []
flatten ((k, v) ∷ es) = k ∷ v ∷ flatten es

pair_up : List Text → List (Text × Text)
pair_up [] = []
pair_up (k ∷ []) = []
pair_up (k ∷ v ∷ ts) = (k, v) ∷ pair_up ts

pair_up-flatten : (es : List (Text × Text)) → pair_up (flatten es) ≡ es
unfolding pair_up flatten
pair_up-flatten [] = refl
pair_up-flatten ((k, v) ∷ es) = ap (◌∷◌ (k, v)) (pair_up-flatten es)

abbrev text_yaml : Yaml Text
text_yaml = record {
  load = some;
  print = λ y. y;
  sequence = join;
  items = split;
  mapping = λ es. join (flatten es);
  entries = λ y. pair_up (split y);
  load_print = λ y. refl;
  items_sequence = split-join;
  entries_mapping = λ es. ap pair_up (split-join (flatten es)) ∙ pair_up-flatten es;
}

-- Texts by their first byte.
abbrev first_below : Text → Text → Bool
first_below [] t = true
first_below (c ∷ s) [] = false
first_below (c ∷ s) (d ∷ t) = ltb c d

abbrev text_cast : Cast Text
text_cast = record { from = some; to = some }

text-Returns : (t : Text) → Returns text_yaml text_cast t
text-Returns t = (t, t, refl, refl, refl)

abbrev texts : Cast (List Text)
texts = vector_cast text_yaml text_cast

one-Returns : (t : Text) → Returns text_yaml texts (t ∷ [])
one-Returns t =
    (sequences_return text_yaml text_cast first_below text_eq (t ∷ []) [] [] (text-Returns t, tt) tt
      tt tt tt).0

-- A vector of vectors: the inner conversion is that of the elements.
sequences_return_example :
    Returns text_yaml (vector_cast text_yaml texts) ((codes "b" ∷ []) ∷ [])
    × Returns text_yaml (list_cast text_yaml texts) ((codes "b" ∷ []) ∷ [])
    × Returns text_yaml
        (set_cast text_yaml texts (λ a b. first_below (join a) (join b)))
        ((codes "a" ∷ []) ∷ (codes "b" ∷ []) ∷ [])
    × Returns text_yaml
        (unordered_set_cast text_yaml texts (λ a b. text_eq (join a) (join b)))
        ((codes "b" ∷ []) ∷ (codes "a" ∷ []) ∷ [])
unfolding text_eq join
sequences_return_example =
    sequences_return text_yaml texts (λ a b. first_below (join a) (join b))
      (λ a b. text_eq (join a) (join b)) ((codes "b" ∷ []) ∷ [])
      ((codes "a" ∷ []) ∷ (codes "b" ∷ []) ∷ []) ((codes "b" ∷ []) ∷ (codes "a" ∷ []) ∷ [])
      (one-Returns _, tt) (one-Returns _, (one-Returns _, tt)) (one-Returns _, (one-Returns _, tt))
      (((refl, refl), tt), (tt, tt)) ((refl, tt), (tt, tt))
