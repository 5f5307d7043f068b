-- ===== src/Config/Runs.antt =====
-- A small tree of settings for src/config.cpp, and the theorems at it.
use cool.Base.{ℕ, ◌≡◌, refl, ◌↔◌, Bool, [], ◌∷◌, Option, none, some, ◌==◌}
use cool.Base.Text.{Text, codes, text_eq, lower}
use cool.Config.{
  Node, scalar, mapping, no_members, member, list_all, ConfigVarMap, new_var, find, put, load_one,
  load_all, load_from_yaml, from_string, set_value, ConfigVar,
}
use cool.Config.Tree.{Under, Occurs, list_all_lem}
use cool.Config.Loaded.{load_from_yaml_lem}

abbrev tree : Node
tree =
    mapping
      (member (codes "http") (mapping (member (codes "port") (scalar (codes "8")) no_members) [])
        no_members)
      []

abbrev first_byte : Text → Option ℕ
first_byte [] = none
first_byte (c ∷ s) = some c

abbrev settings : ConfigVarMap ℕ
settings =
    (codes "http.port", new_var (codes "http.port") 0 80 first_byte)
    ∷ (codes "Http.Port", new_var (codes "Http.Port") 0 80 first_byte)
    ∷ []

abbrev same_number : ℕ → ℕ → Bool
same_number a b = a == b

abbrev value_of : Option (ConfigVar ℕ) → ℕ
value_of none = 0
value_of (some var) = var.val

-- The variable of the tree gets its value from the tree.
loaded_test : value_of (find (codes "http.port") (load_from_yaml same_number settings tree)) ≡ b'8'
unfolding load_from_yaml load_all load_one list_all find put from_string set_value text_eq lower
    new_var
loaded_test = refl

list_all_lem_example :
    Occurs (codes "http.port") (scalar (codes "8")) (list_all [] tree)
    ↔ Under [] tree (codes "http.port") (scalar (codes "8"))
list_all_lem_example = list_all_lem [] (codes "http.port") tree (scalar (codes "8"))

load_from_yaml_lem_example :
    find (codes "Http.Port") (load_from_yaml same_number settings tree)
    ≡ find (codes "Http.Port") settings
load_from_yaml_lem_example = load_from_yaml_lem same_number settings tree (codes "Http.Port") refl
