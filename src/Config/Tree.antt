-- ===== src/Config/Tree.antt =====
-- What listAllMember of src/config.cpp lists of a tree.
use mathlib.Core.Path.{subst}
use cool.Base.{
  ◌≡◌, refl, ◌⊎◌, ◌↔◌, inl, inr, Bool, true, false, List, [], ◌∷◌, ◌++◌, if◌then◌else◌, Bool-cases,
}
use cool.Base.Text.{Text}
use cool.Config.{
  Node, scalar, mapping, other, Members, no_members, member, is_lower_name, all_of, join, list_all,
  list_members,
}

abbrev pub IsName : Text → Type 0
IsName prefix = all_of is_lower_name prefix ≡ true

-- A node `m` lies under the node `n` of the name `p`, with the name `q`, and all the names on the
-- way are valid; likewise under one of the members of a map.
mutual
  pub data Under : Text → Node → Text → Node → Type 0 where
    here : {p : Text} {n : Node} → IsName p → Under p n p n
    below :
        {p : Text} {ms : Members} {s q : Text} {m : Node}
        → IsName p
        → Within p ms q m
        → Under p (mapping ms s) q m

  pub data Within : Text → Members → Text → Node → Type 0 where
    first :
        {p key : Text} {n : Node} {ms : Members} {q : Text} {m : Node}
        → Under (join p key) n q m
        → Within p (member key n ms) q m
    later :
        {p key : Text} {n : Node} {ms : Members} {q : Text} {m : Node}
        → Within p ms q m
        → Within p (member key n ms) q m

-- The named node is in the list.
abbrev pub Occurs : Text → Node → List (Text × Node) → Type 0
Occurs q m [] = ◌≡◌ {A = Bool} false true
Occurs q m (x ∷ xs) = (x ≡ (q, m)) ⊎ Occurs q m xs

Occurs-left :
    (q : Text) (m : Node) (xs ys : List (Text × Node)) → Occurs q m xs → Occurs q m (xs ++ ys)
Occurs-left q m [] ys h = absurd (cc)
Occurs-left q m (x ∷ xs) ys (inl e) = inl e
Occurs-left q m (x ∷ xs) ys (inr h) = inr (Occurs-left q m xs ys h)

Occurs-right :
    (q : Text) (m : Node) (xs ys : List (Text × Node)) → Occurs q m ys → Occurs q m (xs ++ ys)
Occurs-right q m [] ys h = h
Occurs-right q m (x ∷ xs) ys h = inr (Occurs-right q m xs ys h)

Occurs-split :
    (q : Text) (m : Node) (xs ys : List (Text × Node))
    → Occurs q m (xs ++ ys)
    → Occurs q m xs ⊎ Occurs q m ys
Occurs-split q m [] ys h = inr h
Occurs-split q m (x ∷ xs) ys (inl e) = inl (inl e)
Occurs-split q m (x ∷ xs) ys (inr h) = elim (Occurs-split q m xs ys h) [
  | inl k ↦ inl (inr k)
  | inr k ↦ inr k
]

listed_here : (p : Text) (n : Node) → IsName p → Occurs p n (list_all p n)
unfolding list_all
listed_here p (scalar s) h = rw h (inl refl)
listed_here p (other s) h = rw h (inl refl)
listed_here p (mapping ms s) h = rw h (inl refl)

mutual
  unfolding list_all list_members

  complete : (p q : Text) (n m : Node) → Under p n q m → Occurs q m (list_all p n)
  complete p q n m (here h) = listed_here p n h
  complete p q (mapping ms s) m (below h w) = rw h (inr (complete_members p q ms m w))

  complete_members :
      (p q : Text) (ms : Members) (m : Node) → Within p ms q m → Occurs q m (list_members p ms)
  complete_members p q no_members m w = elim w [ ]
  complete_members p q (member key n ms) m (first u) =
      Occurs-left q m (list_all (join p key) n) (list_members p ms) (complete (join p key) q n m u)
  complete_members p q (member key n ms) m (later w) =
      Occurs-right q m (list_all (join p key) n) (list_members p ms) (complete_members p q ms m w)

here_at : (p q : Text) (n m : Node) → IsName p → ◌≡◌ {A = Text × Node} (p, n) (q, m) → Under p n q m
here_at p q n m h e = subst (λ (x : Text × Node). Under p n x.0 x.1) e (here h)

-- A leaf is listed by itself, if its name is valid.
leaf_lem :
    (p q : Text) (n m : Node)
    → Occurs q m (if all_of is_lower_name p then (p, n) ∷ [] else [])
    → Under p n q m
leaf_lem p q n m h = elim (Bool-cases (all_of is_lower_name p)) [
  | inl e ↦
      let k : Occurs q m ((p, n) ∷ []) = rw e at h in
      elim k [ inl a ↦ here_at p q n m e a | inr b ↦ absurd (cc) ]
  | inr e ↦ let k : ◌≡◌ {A = Bool} false true = rw e at h in absurd (cc)
]

mutual
  unfolding list_all list_members

  sound : (p q : Text) (n m : Node) → Occurs q m (list_all p n) → Under p n q m
  sound p q (scalar s) m h = leaf_lem p q (scalar s) m h
  sound p q (other s) m h = leaf_lem p q (other s) m h
  sound p q (mapping ms s) m h = elim (Bool-cases (all_of is_lower_name p)) [
    | inl e ↦
        let k : Occurs q m ((p, mapping ms s) ∷ list_members p ms) = rw e at h in
        elim k [
          | inl a ↦ here_at p q (mapping ms s) m e a
          | inr b ↦ below e (sound_members p q ms m b)
        ]
    | inr e ↦ let k : ◌≡◌ {A = Bool} false true = rw e at h in absurd (cc)
  ]

  sound_members :
      (p q : Text) (ms : Members) (m : Node) → Occurs q m (list_members p ms) → Within p ms q m
  sound_members p q no_members m h = absurd (cc)
  sound_members p q (member key n ms) m h =
      elim (Occurs-split q m (list_all (join p key) n) (list_members p ms) h) [
        | inl k ↦ first (sound (join p key) q n m k)
        | inr k ↦ later (sound_members p q ms m k)
      ]

-- The list of a tree has a node under a name just when the node lies there, below maps whose names
-- are all of lower-case letters, digits, dots and underscores.
pub list_all_lem : (p q : Text) (n m : Node) → Occurs q m (list_all p n) ↔ Under p n q m
list_all_lem p q n m = (sound p q n m, complete p q n m)
