-- ===== src/Config/Casts/RoundTrip.antt =====
-- Containers survive the way to a text and back (src/config.h).
use cool.Base.{Bool, ◌≡◌, refl, ap, List, [], ◌∷◌, Option, some, All}
use cool.Base.Text.{Text}
use cool.Config.Containers.{
  insert_each, push_back, set_insert, unordered_insert, Pairs, Below, Apart, push_back_rebuilt,
  set_rebuilt, unordered_rebuilt,
}
use cool.Config.Casts.{
  Yaml, Cast, map_option, node_of, of_node, from_sequence, to_sequence, entry_of, of_entry,
  from_mapping, to_mapping, sequence_cast, mapping_cast, vector_cast, list_cast, set_cast,
  unordered_set_cast, map_cast, unordered_map_cast,
}

-- The text of `t` loads as a node whose print converts to `t` again.
abbrev pub Returns : {Y T : Type 0} → Yaml Y → Cast T → T → Type 0
Returns {Y} {T} yaml cast t =
    (s : Text) × (y : Y) × (cast.to t ≡ some s)
    × (yaml.load s ≡ some y)
    × (cast.from (yaml.print y) ≡ some t)

module _ {Y T : Type 0} (yaml : Yaml Y) (element : Cast T) where
  returned :
      (t : T)
      → Returns yaml element t
      → (y : Y) × (node_of yaml element t ≡ some y) × (of_node yaml element y ≡ some t)
  unfolding node_of of_node
  returned t (s, y, e, l, f) = (y, rw (e, l) refl, f)

-- An inverse of each step is an inverse of the loop.
map_option_back :
    {A B : Type 0} (f : A → Option B) (g : B → Option A) (xs : List A)
    → All (λ a. (b : B) × (f a ≡ some b) × (g b ≡ some a)) xs
    → (bs : List B) × (map_option f xs ≡ some bs) × (map_option g bs ≡ some xs)
unfolding map_option
map_option_back f g [] h = ([], refl, refl)
map_option_back f g (a ∷ xs) ((b, e, k), h) =
    let (bs, es, ks) = map_option_back f g xs h in (b ∷ bs, rw (e, es) refl, rw (k, ks) refl)

All-map :
    {A : Type 0} {P Q : A → Type 0} → ((a : A) → P a → Q a) → (xs : List A) → All P xs → All Q xs
All-map f [] h = tt
All-map f (a ∷ xs) h = (f a h.0, All-map f xs h.1)

module _ {Y T : Type 0} (yaml : Yaml Y) (element : Cast T) where
  entry_returned :
      (e : Text × T)
      → Returns yaml element e.1
      → (b : Text × Y) × (entry_of yaml element e ≡ some b) × (of_entry yaml element b ≡ some e)
  unfolding entry_of of_entry
  entry_returned (key, t) h =
      let (y, n, o) = returned yaml element t h in ((key, y), rw n refl, rw o refl)

  sequence_steps :
      (insert : List T → T → List T) (c : List T) (ys : List Y)
      → map_option (node_of yaml element) c ≡ some ys
      → map_option (of_node yaml element) ys ≡ some c
      → insert_each insert [] c ≡ c
      → (to_sequence yaml element c ≡ some (yaml.print (yaml.sequence ys)))
        × (from_sequence yaml element insert (yaml.print (yaml.sequence ys)) ≡ some c)
  unfolding to_sequence from_sequence
  sequence_steps insert c ys e k r =
      (rw e refl, rw (yaml.load_print (yaml.sequence ys), yaml.items_sequence ys, k) (ap some r))

  mapping_steps :
      (insert : List (Text × T) → Text × T → List (Text × T)) (c : List (Text × T))
      (es : List (Text × Y))
      → map_option (entry_of yaml element) c ≡ some es
      → map_option (of_entry yaml element) es ≡ some c
      → insert_each insert [] c ≡ c
      → (to_mapping yaml element c ≡ some (yaml.print (yaml.mapping es)))
        × (from_mapping yaml element insert (yaml.print (yaml.mapping es)) ≡ some c)
  unfolding to_mapping from_mapping
  mapping_steps insert c es e k r =
      (rw e refl, rw (yaml.load_print (yaml.mapping es), yaml.entries_mapping es, k) (ap some r))

  -- A vector, list, set or unordered_set whose elements survive the way to a text and back, and which
  -- its elements put in again in order give, survives it too, so that containers of containers do.
  pub sequence_cast-Returns :
      (insert : List T → T → List T) (c : List T)
      → All (Returns yaml element) c
      → insert_each insert [] c ≡ c
      → Returns yaml (sequence_cast yaml element insert) c
  sequence_cast-Returns insert c h r =
      let (ys, e, k) =
        map_option_back (node_of yaml element) (of_node yaml element) c
          (All-map (returned yaml element) c h) in
      let (t, f) = sequence_steps insert c ys e k r in
      (yaml.print (yaml.sequence ys), yaml.sequence ys, t, yaml.load_print (yaml.sequence ys), f)

  -- The same for a map or unordered_map, by its values.
  pub mapping_cast-Returns :
      (insert : List (Text × T) → Text × T → List (Text × T)) (c : List (Text × T))
      → All (λ e. Returns yaml element e.1) c
      → insert_each insert [] c ≡ c
      → Returns yaml (mapping_cast yaml element insert) c
  mapping_cast-Returns insert c h r =
      let (es, e, k) =
        map_option_back (entry_of yaml element) (of_entry yaml element) c
          (All-map entry_returned c h) in
      let (t, f) = mapping_steps insert c es e k r in
      (yaml.print (yaml.mapping es), yaml.mapping es, t, yaml.load_print (yaml.mapping es), f)

-- A vector, a list, a strictly ascending set, and an unordered_set without repetition are read back
-- from the text that they are written to, if their elements are.
pub sequences_return :
    {Y T : Type 0} (yaml : Yaml Y) (element : Cast T) (lt eq : T → T → Bool) (v s u : List T)
    → All (Returns yaml element) v
    → All (Returns yaml element) s
    → All (Returns yaml element) u
    → Pairs (Below lt) s
    → Pairs (Apart eq) u
    → Returns yaml (vector_cast yaml element) v
      × Returns yaml (list_cast yaml element) v
      × Returns yaml (set_cast yaml element lt) s
      × Returns yaml (unordered_set_cast yaml element eq) u
unfolding vector_cast list_cast set_cast unordered_set_cast
sequences_return yaml element lt eq v s u hv hs hu below apart = (
  sequence_cast-Returns yaml element push_back v hv (push_back_rebuilt v),
  sequence_cast-Returns yaml element push_back v hv (push_back_rebuilt v),
  sequence_cast-Returns yaml element (set_insert lt) s hs (set_rebuilt lt s below),
  sequence_cast-Returns yaml element (unordered_insert eq) u hu (unordered_rebuilt eq u apart),
)

abbrev pub on_keys : {T : Type 0} → (Text → Text → Bool) → Text × T → Text × T → Bool
on_keys lt a b = lt a.0 b.0

-- A map with strictly ascending keys, and an unordered_map without a repeated key, are read back from
-- the text that they are written to, if their values are.
pub mappings_return :
    {Y T : Type 0} (yaml : Yaml Y) (element : Cast T) (lt eq : Text → Text → Bool)
    (c u : List (Text × T))
    → All (λ e. Returns yaml element e.1) c
    → All (λ e. Returns yaml element e.1) u
    → Pairs (Below (on_keys lt)) c
    → Pairs (Apart (on_keys eq)) u
    → Returns yaml (map_cast yaml element lt) c
      × Returns yaml (unordered_map_cast yaml element eq) u
unfolding map_cast unordered_map_cast
mappings_return yaml element lt eq c u hc hu below apart = (
  mapping_cast-Returns yaml element (set_insert (on_keys lt)) c hc
      (set_rebuilt (on_keys lt) c below),
  mapping_cast-Returns yaml element (unordered_insert (on_keys eq)) u hu
      (unordered_rebuilt (on_keys eq) u apart),
)
