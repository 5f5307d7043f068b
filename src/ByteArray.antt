-- ===== src/ByteArray.antt =====
-- src/bytearray.h and src/bytearray.cpp: a byte buffer on a chain of nodes of `base_size` bytes.
-- The chain from m_root is the list `nodes`, a node is the list of its bytes, and m_cur is the index
-- of a node of the chain or, as `none`, the null pointer behind the last node. Fresh memory is
-- written as zeros. A step through a null pointer is the outcome `fault`.
pub mod Flat
pub mod Chain
pub mod Capacity
pub mod Contents
pub mod Write
pub mod Refine
pub mod Read
pub mod Position
pub mod Hex
pub mod Buffers
pub mod Codec
mod Runs
use cool.Base.{
  ℕ, zero, suc, ◌+◌, ◌-◌, ◌*◌, ◌/◌, ◌%◌, ◌^◌, Bool, true, false, List, [], ◌∷◌, ◌++◌, Option, none,
  some, length, take, drop, replicate, overwrite, ltb, leb, ◌==◌, if◌then◌else◌,
}

-- `thrown` is std::out_of_range.
pub data Outcome {ℓ} (A : Type ℓ) : Type ℓ where
  ok : A → Outcome A
  thrown : Outcome A
  fault : Outcome A

infixl 5 ◌>>=◌
abbrev pub ◌>>=◌ {ℓ κ} : {A : Type ℓ} {B : Type κ} → Outcome A → (A → Outcome B) → Outcome B
ok a >>= f = f a
thrown >>= f = thrown
fault >>= f = fault

-- A null dereference for `none`.
abbrev pub deref {ℓ} : {A : Type ℓ} → Option A → Outcome A
deref none = fault
deref (some a) = ok a

-- m_endian is the flag `little`.
pub record ByteArray : Type 0 where
  pub base_size : ℕ
  pub pos : ℕ
  pub capacity : ℕ
  pub size : ℕ
  pub little : Bool
  pub nodes : List (List ℕ)
  pub cur : Option ℕ

-- a - b of size_t.
abbrev pub sub_size : ℕ → ℕ → ℕ
sub_size a b = if leb b a then a - b else a + 2 ^ 64 - b

abbrev pub new_node : ℕ → List ℕ
new_node n = replicate n 0

-- The pointer to the node behind index `i - 1`.
abbrev pub node_at : List (List ℕ) → ℕ → Option ℕ
node_at ns i = if ltb i (length ns) then some i else none

-- ByteArray(base_size); the default order is COOL_BIG_ENDIAN.
unfoldable pub new : ℕ → ByteArray
new base = record {
  base_size = base;
  pos = 0;
  capacity = base;
  size = 0;
  little = false;
  nodes = new_node base ∷ [];
  cur = some 0;
}

unfoldable pub is_little_endian : ByteArray → Bool
is_little_endian b = b.little

unfoldable pub set_is_little_endian : ByteArray → Bool → ByteArray
set_is_little_endian b val = if val then record b { little = true } else record b { little = false }

abbrev pub get_read_size : ByteArray → ℕ
get_read_size b = sub_size b.size b.pos

abbrev pub get_capacity : ByteArray → ℕ
get_capacity b = sub_size b.capacity b.pos

-- clear: the root node alone stays.
unfoldable pub clear : ByteArray → ByteArray
clear b = record b {
  pos = 0;
  size = 0;
  capacity = b.base_size;
  nodes = take 1 b.nodes;
  cur = some 0;
}

-- How many nodes addCapacity appends for `n` more bytes when `old` are free.
abbrev pub node_count : ℕ → ℕ → ℕ → ℕ
node_count base old n = n / base + (if ltb old (n % base) then 1 else 0)

-- `count` new nodes at the end of the chain; m_cur moves to the first of them if nothing was free.
unfoldable pub grow : ByteArray → ℕ → ByteArray
grow b count = record b {
  nodes = b.nodes ++ replicate count (new_node b.base_size);
  capacity = b.capacity + count * b.base_size;
  cur = if get_capacity b == 0 then (if count == 0 then none else some (length b.nodes)) else b.cur;
}

unfoldable pub add_capacity : ByteArray → ℕ → ByteArray
add_capacity b n =
    let old = get_capacity b in
    if n == 0 then b else (if leb n old then b else grow b (node_count b.base_size old (n - old)))

-- The loop of write from node m_cur on, at offset `npos` of it: the nodes after it, and how many
-- nodes m_cur moved. The chain ends in a null pointer.
unfoldable pub write_chain : List (List ℕ) → ℕ → List ℕ → Option (List (List ℕ) × ℕ)
write_chain ns npos [] = some (ns, 0)
write_chain [] npos (x ∷ xs) = none
write_chain (n ∷ ns) npos (x ∷ xs) =
    let ncap = sub_size (length n) npos in
    let rest = write_chain ns 0 (drop ncap (x ∷ xs)) in
    if leb (length (x ∷ xs)) ncap
    then some (overwrite npos (x ∷ xs) n ∷ ns, if length n == npos + length (x ∷ xs) then 1 else 0)
    else elim rest [
      | none ↦ none
      | some (ns', k) ↦ some (overwrite npos (take ncap (x ∷ xs)) n ∷ ns', suc k)
    ]

-- write(buf, size) behind its addCapacity.
unfoldable pub store : ByteArray → List ℕ → Outcome ByteArray
store b xs = do
  k ← deref b.cur
  (ns, moved) ← deref (write_chain (drop k b.nodes) (b.pos % b.base_size) xs)
  let nodes = take k b.nodes ++ ns
  let pos = b.pos + length xs
  ok (record b {
    nodes = nodes;
    cur = node_at nodes (k + moved);
    pos = pos;
    size = if ltb b.size pos then pos else b.size;
  })

-- write(buf, size).
unfoldable pub write : ByteArray → List ℕ → Outcome ByteArray
write b [] = ok b
write b (x ∷ xs) = store (add_capacity b (length (x ∷ xs))) (x ∷ xs)

-- The loop of read from node m_cur on: the bytes, and how many nodes m_cur moved.
unfoldable pub read_chain : List (List ℕ) → ℕ → ℕ → Option (List ℕ × ℕ)
read_chain ns npos zero = some ([], 0)
read_chain [] npos (suc s) = none
read_chain (n ∷ ns) npos (suc s) =
    let ncap = sub_size (length n) npos in
    let rest = read_chain ns 0 (suc s - ncap) in
    if leb (suc s) ncap
    then some (take (suc s) (drop npos n), if length n == npos + suc s then 1 else 0)
    else elim rest [ none ↦ none | some (bs, k) ↦ some (take ncap (drop npos n) ++ bs, suc k) ]

-- read(buf, size). `m_cur->size` is read also for a size of 0.
unfoldable pub read : ByteArray → ℕ → Outcome (List ℕ × ByteArray)
read b n = if ltb (get_read_size b) n then thrown else (do
  k ← deref b.cur
  (bs, moved) ← deref (read_chain (drop k b.nodes) (b.pos % b.base_size) n)
  ok (bs, record b { pos = b.pos + n; cur = node_at b.nodes (k + moved) }))

-- read(buf, size, pos) const, which starts at node m_cur whatever `pos` is.
unfoldable pub read_from : ByteArray → ℕ → ℕ → Outcome (List ℕ)
read_from b n pos = if ltb (get_read_size b) n then thrown else (do
  k ← deref b.cur
  (bs, moved) ← deref (read_chain (drop k b.nodes) (pos % b.base_size) n)
  ok bs)

-- The walk of position(val) from the root; `i` is the index of the node.
unfoldable pub seek : List (List ℕ) → ℕ → ℕ → Outcome ℕ
seek [] val i = fault
seek (n ∷ ns) val i =
    if ltb (length n) val
    then seek ns (val - length n) (suc i)
    else (if val == length n then ok (suc i) else ok i)

-- position(val).
unfoldable pub set_position : ByteArray → ℕ → Outcome ByteArray
set_position b val = if ltb b.capacity val then thrown else (do
  i ← seek b.nodes val 0
  ok (record b {
    pos = val;
    size = if ltb b.size val then val else b.size;
    cur = node_at b.nodes i;
  }))

-- to_string: the unread bytes.
unfoldable pub to_string : ByteArray → Outcome (List ℕ)
to_string b = if get_read_size b == 0 then ok [] else read_from b (get_read_size b) b.pos
