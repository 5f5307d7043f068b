-- ===== src/Config/Casts.antt =====
-- The conversions LexicalCast of src/config.h between texts and containers. yaml-cpp is the interface
-- `Yaml`; `none` is an exception. A conversion of an element is a `Cast`.
pub mod RoundTrip
mod Runs
use cool.Base.{ℕ, Bool, ◌≡◌, List, [], ◌∷◌, ◌++◌, Option, none, some, All, map}
use cool.Base.Text.{Text}
use cool.Config.Containers.{insert_each, push_back, set_insert, unordered_insert}

-- Nodes of yaml-cpp: YAML::Load, operator<< and the building and reading of sequences and maps.
pub record Yaml (Y : Type 0) : Type 0 where
  pub load : Text → Option Y
  pub print : Y → Text
  pub sequence : List Y → Y
  pub items : Y → List Y
  pub mapping : List (Text × Y) → Y
  pub entries : Y → List (Text × Y)
  -- What was printed loads again as the same node, and nodes keep what they were built of.
  pub load_print : (y : Y) → load (print y) ≡ some y
  pub items_sequence : (ys : List Y) → items (sequence ys) ≡ ys
  pub entries_mapping : (es : List (Text × Y)) → entries (mapping es) ≡ es

-- LexicalCast<std::string, T> and LexicalCast<T, std::string>.
pub record Cast (T : Type 0) : Type 0 where
  pub from : Text → Option T
  pub to : T → Option Text

infixl 5 ◌>>=◌
abbrev pub ◌>>=◌ : {A B : Type 0} → Option A → (A → Option B) → Option B
none >>= f = none
some a >>= f = f a

-- The loop over the nodes, until a conversion throws.
unfoldable pub map_option : {A B : Type 0} → (A → Option B) → List A → Option (List B)
map_option f [] = some []
map_option f (a ∷ xs) = do b ← f a; bs ← map_option f xs; some (b ∷ bs)

module _ {Y T : Type 0} (yaml : Yaml Y) (element : Cast T) where
  -- The node of an element, and the element of a node.
  unfoldable pub node_of : T → Option Y
  node_of t = do s ← element.to t; yaml.load s

  unfoldable pub of_node : Y → Option T
  of_node y = element.from (yaml.print y)

  -- From a text to vector, list, set or unordered_set, by `insert`.
  unfoldable pub from_sequence : (List T → T → List T) → Text → Option (List T)
  from_sequence insert v = do
    node ← yaml.load v
    ts ← map_option of_node (yaml.items node)
    some (insert_each insert [] ts)

  unfoldable pub to_sequence : List T → Option Text
  to_sequence c = do ys ← map_option node_of c; some (yaml.print (yaml.sequence ys))

  -- From a text to map or unordered_map, and back, an entry at a time.
  unfoldable pub entry_of : Text × T → Option (Text × Y)
  entry_of (key, t) = do y ← node_of t; some (key, y)

  unfoldable pub of_entry : Text × Y → Option (Text × T)
  of_entry (key, y) = do t ← of_node y; some (key, t)

  unfoldable pub from_mapping :
      (List (Text × T) → Text × T → List (Text × T)) → Text → Option (List (Text × T))
  from_mapping insert v = do
    node ← yaml.load v
    es ← map_option of_entry (yaml.entries node)
    some (insert_each insert [] es)

  unfoldable pub to_mapping : List (Text × T) → Option Text
  to_mapping c = do es ← map_option entry_of c; some (yaml.print (yaml.mapping es))

  abbrev pub sequence_cast : (List T → T → List T) → Cast (List T)
  sequence_cast insert = record { from = from_sequence insert; to = to_sequence }

  abbrev pub mapping_cast : (List (Text × T) → Text × T → List (Text × T)) → Cast (List (Text × T))
  mapping_cast insert = record { from = from_mapping insert; to = to_mapping }

  -- LexicalCast of each container, in both directions; `lt` and `eq` are the order and the equality of
  -- the elements or the keys.
  unfoldable pub vector_cast : Cast (List T)
  vector_cast = sequence_cast push_back

  unfoldable pub list_cast : Cast (List T)
  list_cast = sequence_cast push_back

  unfoldable pub set_cast : (T → T → Bool) → Cast (List T)
  set_cast lt = sequence_cast (set_insert lt)

  unfoldable pub unordered_set_cast : (T → T → Bool) → Cast (List T)
  unordered_set_cast eq = sequence_cast (unordered_insert eq)

  unfoldable pub map_cast : (Text → Text → Bool) → Cast (List (Text × T))
  map_cast lt = mapping_cast (set_insert (λ a b. lt a.0 b.0))

  unfoldable pub unordered_map_cast : (Text → Text → Bool) → Cast (List (Text × T))
  unordered_map_cast eq = mapping_cast (unordered_insert (λ a b. eq a.0 b.0))
