-- ===== src/Config/Loaded.antt =====
-- What load_from_yaml of src/config.cpp does to the variables.
use cool.Base.{
  ◌≡◌, refl, sym, ap, ◌∙◌, inl, inr, Bool, true, false, List, [], ◌∷◌, ◌++◌, map, some, arith,
  if◌then◌else◌, Bool-cases, Option-cases, All,
}
use cool.Base.Text.{Text, text_eq, text_eq_eq, lower}
use cool.Config.{
  Node, scalar, mapping, other, Members, no_members, member, is_lower_name, all_of, join, list_all,
  list_members, ConfigVar, ConfigVarMap, find, put, load_one, load_all, load_from_yaml, from_string,
  text_of,
}
use cool.Config.Tree.{IsName}

abbrev AllNamed : List (Text × Node) → Type 0
AllNamed = All (λ x. IsName x.0)

AllNamed-append : (xs ys : List (Text × Node)) → AllNamed xs → AllNamed ys → AllNamed (xs ++ ys)
AllNamed-append [] ys h k = k
AllNamed-append (x ∷ xs) ys h k = (h.0, AllNamed-append xs ys h.1 k)

guarded_AllNamed :
    (p : Text) (n : Node) (rest : List (Text × Node))
    → AllNamed rest
    → AllNamed (if all_of is_lower_name p then (p, n) ∷ rest else [])
guarded_AllNamed p n rest h = elim (Bool-cases (all_of is_lower_name p)) [
  | inl e ↦ rw e (e, h)
  | inr e ↦ rw e tt
]

mutual
  unfolding list_all list_members

  listed_AllNamed : (p : Text) (n : Node) → AllNamed (list_all p n)
  listed_AllNamed p (scalar s) = guarded_AllNamed p (scalar s) [] tt
  listed_AllNamed p (other s) = guarded_AllNamed p (other s) [] tt
  listed_AllNamed p (mapping ms s) =
      guarded_AllNamed p (mapping ms s) (list_members p ms) (members_AllNamed p ms)

  members_AllNamed : (p : Text) (ms : Members) → AllNamed (list_members p ms)
  members_AllNamed p no_members = tt
  members_AllNamed p (member key n ms) =
      AllNamed-append (list_all (join p key) n) (list_members p ms) (listed_AllNamed (join p key) n)
        (members_AllNamed p ms)

lower_name : (s : Text) → IsName s → map lower s ≡ s
unfolding lower
lower_name [] h = refl
lower_name (c ∷ s) h =
    let e : lower c ≡ c = ground arith in
    let k : IsName s = ground arith in ap (λ x. x ∷ map lower s) e ∙ ap (◌∷◌ c) (lower_name s k)

module _ {V : Type 0} (eq : V → V → Bool) (name : Text)
    (h : all_of is_lower_name name ≡ false) where
  no_name : (k : Text) → IsName k → text_eq k name ≡ false
  no_name k i = elim (Bool-cases (text_eq k name)) [
    | inl e ↦
        let q : true ≡ false = sym i ∙ ap (all_of is_lower_name) (text_eq_eq k name e) ∙ h in
        absurd (cc)
    | inr e ↦ e
  ]

  find-put :
      (k : Text) (var : ConfigVar V) (datas : ConfigVarMap V)
      → IsName k
      → find name (put k var datas) ≡ find name datas
  unfolding find put
  find-put k var [] i = refl
  find-put k var ((n, old) ∷ datas) i = elim (Bool-cases (text_eq n k)) [
    | inl e ↦
        let q : text_eq n name ≡ false =
          ap (λ t. text_eq t name) (text_eq_eq n k e) ∙ no_name k i in
        rw (e, q) refl
    | inr e ↦ rw (e) (ap (λ t. if text_eq n name then some old else t) (find-put k var datas i))
  ]

  load_one_lem :
      (datas : ConfigVarMap V) (x : Text × Node)
      → IsName x.0
      → find name (load_one eq datas x) ≡ find name datas
  unfolding load_one
  load_one_lem datas ([], node) i = refl
  load_one_lem datas (c ∷ key, node) i = elim (Option-cases (find (map lower (c ∷ key)) datas)) [
    | inl n ↦ rw (load_one, n) refl
    | inr (var, n) ↦
        rw (load_one, n)
          (find-put (map lower (c ∷ key)) (from_string eq var (text_of node)).0 datas
            (ap (all_of is_lower_name) (lower_name (c ∷ key) i) ∙ i))
  ]

  load_all_lem :
      (nodes : List (Text × Node)) (datas : ConfigVarMap V)
      → AllNamed nodes
      → find name (load_all eq datas nodes) ≡ find name datas
  unfolding load_all
  load_all_lem [] datas i = refl
  load_all_lem (x ∷ nodes) datas i =
      load_all_lem nodes (load_one eq datas x) i.1 ∙ load_one_lem datas x i.0

-- A variable that was registered under a name that has other characters than lower-case letters,
-- digits, dots and underscores, such as the upper-case letters that lookup accepts, is left as it is
-- by every tree that is loaded.
pub load_from_yaml_lem :
    {V : Type 0} (eq : V → V → Bool) (datas : ConfigVarMap V) (root : Node) (name : Text)
    → all_of is_lower_name name ≡ false
    → find name (load_from_yaml eq datas root) ≡ find name datas
unfolding load_from_yaml
load_from_yaml_lem eq datas root name h =
    load_all_lem eq name h (list_all [] root) datas (listed_AllNamed [] root)
