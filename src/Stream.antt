-- ===== src/Stream.antt =====
-- src/stream.cpp: writeFixSize and readFixSize over a buffer and over a ByteArray, whose int answers
-- are their 32 bits. The virtual write is the argument `write`: from a state of the stream and the
-- bytes it is handed, the next state and its answer as the size_t into which writeFixSize converts it,
-- so that an error of -1 is 2 ^ 64 - 1.
pub mod Fix
pub mod Read
mod Runs
use cool.Base.{
  ℕ, zero, suc, ◌+◌, ◌-◌, ◌%◌, ◌^◌, List, [], overwrite, Option, none, some, ◌==◌, if◌then◌else◌,
  take, drop, length,
}

-- What `return length` makes of a size_t: the 32 bits of the int.
unfoldable pub int_of : ℕ → ℕ
int_of size = size % 2 ^ 32

-- The loop, for at most `fuel` tests of its condition; `none` is a loop that is still going. What a
-- write would be handed from behind the buffer is not followed.
unfoldable pub write_rounds :
    {S : Type 0} → (S → List ℕ → S × ℕ) → ℕ → S → List ℕ → ℕ → ℕ → Option (S × ℕ)
write_rounds write zero s buffer offset left = none
write_rounds write (suc fuel) s buffer offset left =
    let r = write s (take left (drop offset buffer)) in
    let rest =
      write_rounds write fuel r.0 buffer ((offset + r.1) % 2 ^ 64)
        ((left + 2 ^ 64 - r.1) % 2 ^ 64) in
    if left == 0
    then some (s, int_of (length buffer))
    else (if r.1 == 0 then some (r.0, 0) else rest)

-- writeFixSize(buffer, length).
unfoldable pub write_fix_size :
    {S : Type 0} → (S → List ℕ → S × ℕ) → ℕ → S → List ℕ → Option (S × ℕ)
write_fix_size write fuel s buffer = write_rounds write fuel s buffer 0 (length buffer)

-- What the virtual read stores, or its answer -1.
pub data Answer : Type 0 where
  got : List ℕ → Answer
  failed : Answer

abbrev pub bytes_of : Answer → List ℕ
bytes_of (got bytes) = bytes
bytes_of failed = []

-- The answer as a size_t.
abbrev pub size_of : Answer → ℕ
size_of (got bytes) = length bytes
size_of failed = 2 ^ 64 - 1

-- The loop of readFixSize; what is stored behind the buffer is not followed.
unfoldable pub read_rounds :
    {S : Type 0} → (S → ℕ → S × Answer) → ℕ → S → List ℕ → ℕ → ℕ → Option (S × List ℕ × ℕ)
read_rounds read zero s buffer offset left = none
read_rounds read (suc fuel) s buffer offset left =
    let r = read s left in
    let stored = overwrite offset (bytes_of r.1) buffer in
    let n = size_of r.1 in
    let rest =
      read_rounds read fuel r.0 stored ((offset + n) % 2 ^ 64) ((left + 2 ^ 64 - n) % 2 ^ 64) in
    if left == 0
    then some (s, buffer, int_of (length buffer))
    else (if n == 0 then some (r.0, stored, 0) else rest)

-- readFixSize(buffer, length).
unfoldable pub read_fix_size :
    {S : Type 0} → (S → ℕ → S × Answer) → ℕ → S → List ℕ → Option (S × List ℕ × ℕ)
read_fix_size read fuel s buffer = read_rounds read fuel s buffer 0 (length buffer)

-- The loop over a ByteArray, which is part of the state: `step` is read(ba, left) or write(ba, left)
-- with its answer as a size_t.
unfoldable pub array_rounds : {S : Type 0} → (S → ℕ → S × ℕ) → ℕ → S → ℕ → ℕ → Option (S × ℕ)
array_rounds step zero s size left = none
array_rounds step (suc fuel) s size left =
    let r = step s left in
    let rest = array_rounds step fuel r.0 size ((left + 2 ^ 64 - r.1) % 2 ^ 64) in
    if left == 0 then some (s, int_of size) else (if r.1 == 0 then some (r.0, 0) else rest)

-- readFixSize(ba, length) and writeFixSize(ba, length).
unfoldable pub read_fix_size_array : {S : Type 0} → (S → ℕ → S × ℕ) → ℕ → S → ℕ → Option (S × ℕ)
read_fix_size_array read fuel s size = array_rounds read fuel s size size

unfoldable pub write_fix_size_array : {S : Type 0} → (S → ℕ → S × ℕ) → ℕ → S → ℕ → Option (S × ℕ)
write_fix_size_array write fuel s size = array_rounds write fuel s size size
