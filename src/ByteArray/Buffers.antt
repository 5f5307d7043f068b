-- ===== src/ByteArray/Buffers.antt =====
-- The scatter and gather lists and the file operations of src/bytearray.cpp.
pub mod Gather
use cool.Base.{
  ℕ, zero, suc, ◌+◌, ◌-◌, ◌/◌, ◌%◌, Bool, true, false, List, [], ◌∷◌, ◌++◌, Option, none, some,
  length, take, drop, ltb, leb, ◌==◌, if◌then◌else◌,
}
use cool.ByteArray.{
  ByteArray, Outcome, ok, fault, ◌>>=◌, deref, sub_size, get_read_size, add_capacity, write,
}

-- An iovec: `len` bytes from offset `offset` of the node with index `node`.
pub record Iovec : Type 0 where
  pub node : ℕ
  pub offset : ℕ
  pub len : ℕ

-- The loop of the three functions below, from the node with index `i` on.
unfoldable pub iov_chain : List (List ℕ) → ℕ → ℕ → ℕ → Option (List Iovec)
iov_chain ns i npos zero = some []
iov_chain [] i npos (suc s) = none
iov_chain (n ∷ ns) i npos (suc s) =
    let ncap = sub_size (length n) npos in
    let rest = iov_chain ns (suc i) 0 (suc s - ncap) in
    if leb (suc s) ncap
    then some (record { node = i; offset = npos; len = suc s } ∷ [])
    else elim rest [
      | none ↦ none
      | some vs ↦ some (record { node = i; offset = npos; len = ncap } ∷ vs)
    ]

-- `len > getReadSize() ? getReadSize() : len`
abbrev pub clamp : ℕ → ℕ → ℕ
clamp len most = if ltb most len then most else len

-- getReadBuffers(buffers, len): the vector that is appended, and the result.
unfoldable pub get_read_buffers : ByteArray → ℕ → Outcome (List Iovec × ℕ)
get_read_buffers b len =
    let n = clamp len (get_read_size b) in
    if n == 0 then ok ([], 0) else (do
      k ← deref b.cur
      vs ← deref (iov_chain (drop k b.nodes) k (b.pos % b.base_size) n)
      ok (vs, n))

-- getReadBuffers(buffers, len, pos): from the node of `pos`, counted from the root.
unfoldable pub get_read_buffers_at : ByteArray → ℕ → ℕ → Outcome (List Iovec × ℕ)
get_read_buffers_at b len pos =
    let n = clamp len (get_read_size b) in
    if n == 0 then ok ([], 0) else (do
      vs ←
          deref
            (iov_chain (drop (pos / b.base_size) b.nodes) (pos / b.base_size) (pos % b.base_size) n)
      ok (vs, n))

-- getWriteBuffers(buffers, len), which makes room first.
unfoldable pub get_write_buffers : ByteArray → ℕ → Outcome (List Iovec × ℕ × ByteArray)
get_write_buffers b len =
    if len == 0
    then ok ([], 0, b)
    else (let b' = add_capacity b len in
        do
          k ← deref b'.cur
          vs ← deref (iov_chain (drop k b'.nodes) k (b'.pos % b'.base_size) len)
          ok (vs, len, b'))

-- The loop of writeToFile: what it writes from position `pos` on. A negative length for
-- ofs.write is outside the model and counts as a fault.
unfoldable pub file_chain : ℕ → List (List ℕ) → ℕ → ℕ → Outcome (List ℕ)
file_chain base ns pos zero = ok []
file_chain base [] pos (suc s) = fault
file_chain base (n ∷ ns) pos (suc s) =
    let diff = pos % base in
    let most : ℕ = if ltb base (suc s) then base else suc s in
    let rest = file_chain base ns (pos + (most - diff)) (suc s - (most - diff)) in
    if ltb most diff then fault else (do bs ← rest; ok (take (most - diff) (drop diff n) ++ bs))

-- writeToFile, where `opened` says whether the stream opened: the bytes of the file, or false.
unfoldable pub write_to_file : ByteArray → Bool → Outcome (Option (List ℕ))
write_to_file b false = ok none
write_to_file b true = do
  bs ← elim (get_read_size b) [
    | zero ↦ ok []
    | suc s ↦ deref b.cur >>= λ k. file_chain b.base_size (drop k b.nodes) b.pos (suc s)
  ]
  ok (some bs)

-- readFromFile: each chunk is what one ifs.read of base_size bytes delivered.
unfoldable pub read_from_file : ByteArray → List (List ℕ) → Outcome ByteArray
read_from_file b [] = ok b
read_from_file b (chunk ∷ chunks) = do b' ← write b chunk; read_from_file b' chunks
