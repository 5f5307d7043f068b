-- ===== src/Config.antt =====
-- src/config.h and src/config.cpp: configuration variables, their registry, and the loading of a
-- tree of settings. yaml-cpp is seen through its nodes; the conversion of a text by FromStr, which may
-- throw, and operator== on the values are arguments. The values of all types are one type V, and the type of a variable is a tag.
pub mod Tree
pub mod Containers
pub mod Casts
pub mod Loaded
mod Runs
use cool.Base.{
  ℕ, zero, suc, ◌+◌, Bool, true, false, not, ◌&&◌, ◌||◌, List, [], ◌∷◌, ◌++◌, map, Option, none,
  some, leb, ◌==◌, if◌then◌else◌,
}
use cool.Base.Text.{Text, text_eq, lower}

-- A node of YAML: a scalar with its text, a map, or any other, with the text that it prints.
mutual
  pub data Node : Type 0 where
    scalar : Text → Node
    mapping : Members → Text → Node
    other : Text → Node

  pub data Members : Type 0 where
    no_members : Members
    member : Text → Node → Members → Members

-- A character of "abcdefghijklmnopqrstuvwxyz._0123456789", and of the longer set of lookup.
abbrev pub is_lower_name : ℕ → Bool
is_lower_name c =
    (leb b'a' c && leb c b'z') || (c == b'.' || (c == b'_' || (leb b'0' c && leb c b'9')))

abbrev pub is_name : ℕ → Bool
is_name c = (leb b'A' c && leb c b'Z') || is_lower_name c

-- find_first_not_of(...) == npos.
abbrev pub all_of : (ℕ → Bool) → Text → Bool
all_of p [] = true
all_of p (c ∷ s) = p c && all_of p s

abbrev pub join : Text → Text → Text
join [] key = key
join (c ∷ prefix) key = (c ∷ prefix) ++ b'.' ∷ key

-- listAllMember: what it appends to the output.
unfoldable mutual
  pub list_all : Text → Node → List (Text × Node)
  list_all prefix (scalar s) = if all_of is_lower_name prefix then (prefix, scalar s) ∷ [] else []
  list_all prefix (other s) = if all_of is_lower_name prefix then (prefix, other s) ∷ [] else []
  list_all prefix (mapping ms s) =
      let rest = list_members prefix ms in
      if all_of is_lower_name prefix then (prefix, mapping ms s) ∷ rest else []

  pub list_members : Text → Members → List (Text × Node)
  list_members prefix no_members = []
  list_members prefix (member key node ms) =
      list_all (join prefix key) node ++ list_members prefix ms

-- ConfigVar; a listener is its key and the number of its callback.
pub record ConfigVar (V : Type 0) : Type 0 where
  pub name : Text
  pub type : ℕ
  pub val : V
  pub from_str : Text → Option V
  pub cbs : List (ℕ × ℕ)

-- ConfigVar(name, default_val): ConfigVarBase keeps the name in lower case.
unfoldable pub new_var : {V : Type 0} → Text → ℕ → V → (Text → Option V) → ConfigVar V
new_var name type default_val from_str = record {
  name = map lower name;
  type = type;
  val = default_val;
  from_str = from_str;
  cbs = [];
}

-- A call of a listener with the old and the new value.
abbrev pub notify : {V : Type 0} → V → V → List (ℕ × ℕ) → List (ℕ × V × V)
notify old new_ [] = []
notify old new_ ((key, cb) ∷ cbs) = (cb, old, new_) ∷ notify old new_ cbs

-- set_value, with the calls it makes.
unfoldable pub set_value :
    {V : Type 0} → (V → V → Bool) → ConfigVar V → V → ConfigVar V × List (ℕ × V × V)
set_value eq var v =
    if eq v var.val then (var, []) else (record var { val = v }, notify var.val v var.cbs)

-- from_string: an exception of the conversion is logged; it answers false in any case.
unfoldable pub from_string :
    {V : Type 0} → (V → V → Bool) → ConfigVar V → Text → ConfigVar V × List (ℕ × V × V) × Bool
from_string eq var s = elim (var.from_str s) [
  | none ↦ (var, [], false)
  | some v ↦ let (var', calls) = set_value eq var v in (var', calls, false)
]

-- add_listener under the next key, del_listener and clear_listeners.
unfoldable pub add_listener : {V : Type 0} → ConfigVar V → ℕ → ℕ → ConfigVar V
add_listener var key cb = record var { cbs = var.cbs ++ (key, cb) ∷ [] }

unfoldable pub erase_key : ℕ → List (ℕ × ℕ) → List (ℕ × ℕ)
erase_key key [] = []
erase_key key ((k, cb) ∷ cbs) = if k == key then cbs else (k, cb) ∷ erase_key key cbs

unfoldable pub del_listener : {V : Type 0} → ConfigVar V → ℕ → ConfigVar V
del_listener var key = record var { cbs = erase_key key var.cbs }

unfoldable pub clear_listeners : {V : Type 0} → ConfigVar V → ConfigVar V
clear_listeners var = record var { cbs = [] }

-- The map of GetDatas.
abbrev pub ConfigVarMap : Type 0 → Type 0
ConfigVarMap V = List (Text × ConfigVar V)

-- lookup_base.
unfoldable pub find : {V : Type 0} → Text → ConfigVarMap V → Option (ConfigVar V)
find name [] = none
find name ((n, var) ∷ datas) = if text_eq n name then some var else find name datas

unfoldable pub put : {V : Type 0} → Text → ConfigVar V → ConfigVarMap V → ConfigVarMap V
put name var [] = []
put name var ((n, old) ∷ datas) =
    if text_eq n name then (n, var) ∷ datas else (n, old) ∷ put name var datas

-- What lookup answers: the variable, a null pointer, or an exception.
pub data Lookup (V : Type 0) : Type 0 where
  known : ConfigVar V → Lookup V
  wrong_type : Lookup V
  invalid_argument : Lookup V

-- lookup(name, default_val).
unfoldable pub lookup :
    {V : Type 0} → ConfigVarMap V → Text → ℕ → V → (Text → Option V) → ConfigVarMap V × Lookup V
lookup datas name type default_val from_str = elim (find name datas) [
  | some var ↦ (datas, if var.type == type then known var else wrong_type)
  | none ↦
      let var = new_var name type default_val from_str in
      if all_of is_name name then ((name, var) ∷ datas, known var) else (datas, invalid_argument)
]

-- The text that load_from_yaml converts.
abbrev pub text_of : Node → Text
text_of (scalar s) = s
text_of (mapping ms s) = s
text_of (other s) = s

-- One key of the loop.
unfoldable pub load_one :
    {V : Type 0} → (V → V → Bool) → ConfigVarMap V → Text × Node → ConfigVarMap V
load_one eq datas ([], node) = datas
load_one eq datas (c ∷ key, node) = elim (find (map lower (c ∷ key)) datas) [
  | none ↦ datas
  | some var ↦ put (map lower (c ∷ key)) (from_string eq var (text_of node)).0 datas
]

unfoldable pub load_all :
    {V : Type 0} → (V → V → Bool) → ConfigVarMap V → List (Text × Node) → ConfigVarMap V
load_all eq datas [] = datas
load_all eq datas (n ∷ nodes) = load_all eq (load_one eq datas n) nodes

unfoldable pub load_from_yaml :
    {V : Type 0} → (V → V → Bool) → ConfigVarMap V → Node → ConfigVarMap V
load_from_yaml eq datas root = load_all eq datas (list_all [] root)
