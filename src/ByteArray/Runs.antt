-- ===== src/ByteArray/Runs.antt =====
-- Small buffers of src/bytearray.cpp, and the theorems at them.
use cool.Base.{◌≤◌, ◌≡◌, refl, ◌↔◌, inl, inr, true, false, [], ◌∷◌, some, arith, take, drop}
use cool.ByteArray.{
  ByteArray, ok, fault, ◌>>=◌, new, get_capacity, add_capacity, write, read, set_position,
}
use cool.ByteArray.Capacity.{IsValid, Enough, new-IsValid, add_capacity-Enough}
use cool.ByteArray.Contents.{contents}
use cool.ByteArray.Write.{Advanced}
use cool.ByteArray.Refine.{write-Advanced, write_short, Enough-one}
use cool.ByteArray.Read.{Consumed, read-Consumed}
use cool.ByteArray.Codec.{Host, write_uint64, read_uint64}
use cool.ByteArray.Codec.Varint.{uint64_round_trip}

four-IsValid : IsValid (new 4)
four-IsValid = new-IsValid 4 (omega arith)

-- Three bytes, with the position in front of them.
abbrev three_bytes : ByteArray
three_bytes = record {
  base_size = 4;
  nodes = (7 ∷ 8 ∷ 9 ∷ 0 ∷ []) ∷ [];
  pos = 0;
  capacity = 4;
  size = 3;
  little = false;
  cur = some 0;
}

three_bytes-IsValid : IsValid three_bytes
three_bytes-IsValid = record {
  positive = omega arith;
  uniform = (refl, tt);
  rooted = omega arith;
  full = refl;
  pos-le-size = omega arith;
  size-le-capacity = omega arith;
  at_cur = refl;
}

write-Advanced_example :
    (b' : ByteArray) × (write three_bytes (1 ∷ 2 ∷ 3 ∷ 4 ∷ 5 ∷ 6 ∷ 7 ∷ 8 ∷ []) ≡ ok b')
    × Advanced three_bytes (1 ∷ 2 ∷ 3 ∷ 4 ∷ 5 ∷ 6 ∷ 7 ∷ 8 ∷ []) b'
write-Advanced_example =
    write-Advanced three_bytes (1 ∷ 2 ∷ 3 ∷ 4 ∷ 5 ∷ 6 ∷ 7 ∷ 8 ∷ []) three_bytes-IsValid
      (inr (inl refl))

write_short_example : write three_bytes (1 ∷ 2 ∷ 3 ∷ 4 ∷ 5 ∷ []) ≡ fault
write_short_example = write_short three_bytes (1 ∷ 2 ∷ 3 ∷ 4 ∷ 5 ∷ []) three_bytes-IsValid (λ e.
    elim e [ inl f ↦ omega arith | inr f ↦ elim f [ inl g ↦ omega arith | inr g ↦ omega arith ] ])

add_capacity-Enough_example :
    (7 ≤ get_capacity (add_capacity three_bytes 7)) ↔ Enough 4 (get_capacity three_bytes) 7
add_capacity-Enough_example = add_capacity-Enough three_bytes 7 three_bytes-IsValid

read-Consumed_example :
    (b' : ByteArray) × (read three_bytes 2 ≡ ok (take 2 (drop 0 (contents three_bytes)), b'))
    × Consumed three_bytes 2 b'
read-Consumed_example = read-Consumed three_bytes 2 three_bytes-IsValid (omega arith) (omega arith)

uint64_round_trip_example :
    (b' : ByteArray) × ((do b1 ← write_uint64 (new 1) 70000; b2 ← set_position b1 0; read_uint64 b2)
      ≡ ok (70000, b'))
unfolding new
uint64_round_trip_example =
    uint64_round_trip (new 1) 70000 (new-IsValid 1 (omega arith)) (omega arith)
      (λ n _. Enough-one (get_capacity (new 1)) n)

abbrev pc : Host
pc = record { declared_little = true; machine_little = true }

-- A string of two bytes behind its count.
abbrev counted : ByteArray
counted = record three_bytes { nodes = (0 ∷ 2 ∷ 65 ∷ 66 ∷ []) ∷ []; size = 4 }

counted-IsValid : IsValid counted
counted-IsValid = record {
  positive = omega arith;
  uniform = (refl, tt);
  rooted = omega arith;
  full = refl;
  pos-le-size = omega arith;
  size-le-capacity = omega arith;
  at_cur = refl;
}
