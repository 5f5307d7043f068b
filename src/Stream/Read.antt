-- ===== src/Stream/Read.antt =====
-- What readFixSize of src/stream.cpp stores, and when it ends.
use cool.Base.{
  ℕ, zero, suc, ◌+◌, ◌-◌, ◌%◌, ◌^◌, ◌≤◌, ◌<◌, ◌≡◌, refl, sym, ap, ◌∙◌, ◌⊎◌, inl, inr, false, List,
  [], ◌∷◌, ◌++◌, some, arith, ◌==◌, Bool-cases, take, length, overwrite,
}
use mathlib.Core.List.{append_assoc}
use cool.ByteArray.Flat.{take_all, length-overwrite}
use cool.Stream.{Answer, got, bytes_of, int_of, read_rounds, read_fix_size}

-- A read that stores at most what it is asked for, from the front of what is to come.
abbrev pub IsServing : {S : Type 0} → (S → ℕ → S × Answer) → (S → List ℕ) → Type 0
IsServing {S = S} read to_come =
    (s : S) (n : ℕ)
    → (bytes : List ℕ) × ((read s n).1 ≡ got bytes)
      × (length bytes ≤ n)
      × (to_come s ≡ bytes ++ to_come (read s n).0)

-- A read that stores nothing of what it is asked for.
abbrev pub Starved : {S : Type 0} → (S → ℕ → S × Answer) → Type 0
Starved {S = S} read = (t : S) × (n : ℕ) × (0 < n) × (length (bytes_of (read t n).1) ≡ 0)

-- How the loop ends: the buffer is full and its length is answered as an int, or a read stored nothing after a
-- part, and 0 is answered.
abbrev pub Filled : {S : Type 0} → (S → ℕ → S × Answer) → List ℕ → List ℕ → ℕ → ℕ → List ℕ → Type 0
Filled read before after size r buffer =
    (length buffer ≡ size)
    × (((r ≡ int_of size) × (before ≡ buffer ++ after))
        ⊎ ((r ≡ 0) × ((k : ℕ) × (k < size) × (before ≡ take k buffer ++ after)) × Starved read))

take-overwrite :
    (i : ℕ) (xs buffer : List ℕ)
    → i + length xs ≤ length buffer
    → take (i + length xs) (overwrite i xs buffer) ≡ take i buffer ++ xs
take-overwrite zero [] [] h = refl
take-overwrite zero [] (y ∷ ys) h = refl
take-overwrite zero (x ∷ xs) [] h = absurd (omega arith)
take-overwrite zero (x ∷ xs) (y ∷ ys) h =
    let e : zero + length (x ∷ xs) ≡ suc (zero + length xs) = omega arith in
    rw e (ap (◌∷◌ x) (take-overwrite zero xs ys (omega arith)))
take-overwrite (suc i) [] [] h = absurd (omega arith)
take-overwrite (suc i) (x ∷ xs) [] h = absurd (omega arith)
take-overwrite (suc i) xs (y ∷ ys) h =
    let e : suc i + length xs ≡ suc (i + length xs) = omega arith in
    rw e (ap (◌∷◌ y) (take-overwrite i xs ys (omega arith)))

rounds_step :
    {S : Type 0} (read : S → ℕ → S × Answer) (fuel : ℕ) (s : S) (buffer bytes : List ℕ)
    (offset left : ℕ)
    → (read s left).1 ≡ got bytes
    → (left == 0) ≡ false
    → (length bytes == 0) ≡ false
    → offset + left < 2 ^ 64
    → length bytes ≤ left
    → read_rounds read (suc fuel) s buffer offset left
      ≡ read_rounds read fuel
          (read s left).0
          (overwrite offset bytes buffer)
          (offset + length bytes)
          (left - length bytes)
unfolding read_rounds
rounds_step read fuel s buffer bytes offset left g z y b le =
    let o : (offset + length bytes) % 2 ^ 64 ≡ offset + length bytes = omega arith in
    let l : (left + 2 ^ 64 - length bytes) % 2 ^ 64 ≡ left - length bytes = omega arith in
    rw (read_rounds, g, z, y, o, l) refl

rounds_lem :
    {S : Type 0} (read : S → ℕ → S × Answer) (to_come : S → List ℕ) (fuel : ℕ) (s : S)
    (before buffer : List ℕ) (offset left size : ℕ)
    → IsServing read to_come
    → size < 2 ^ 64
    → length buffer ≡ size
    → offset + left ≡ size
    → left < fuel
    → before ≡ take offset buffer ++ to_come s
    → (s' : S) × (buffer' : List ℕ) × (r : ℕ) × (read_rounds read fuel s buffer offset left
        ≡ some (s', buffer', r))
      × Filled read before (to_come s') size r buffer'
unfolding read_rounds
rounds_lem read to_come zero s before buffer offset left size p b k e f g = absurd (omega arith)
rounds_lem read to_come (suc fuel) s before buffer offset left size p b k e f g =
    elim (Bool-cases (left == 0)) [
      | inl z ↦ (
        s,
        buffer,
        int_of (length buffer),
        rw (read_rounds, z) refl,
        (
          k,
          inl (ap int_of k, g ∙ ap (λ l. l ++ to_come s) (take_all offset buffer (ground arith))),
        ),
      )
      | inr z ↦
          let (bytes, a, le, c) = p s left in
          let stored = overwrite offset bytes buffer in
          let size' : length stored ≡ size = length-overwrite offset bytes buffer ∙ k in
          let more : before ≡ take (offset + length bytes) stored ++ to_come (read s left).0 =
            g
            ∙ ap (λ l. take offset buffer ++ l) c
            ∙ sym (append_assoc (take offset buffer) bytes (to_come (read s left).0))
            ∙ ap (λ l. l ++ to_come (read s left).0)
                (sym (take-overwrite offset bytes buffer (omega arith))) in
          elim (Bool-cases (length bytes == 0)) [
            | inl y ↦ (
              (read s left).0,
              stored,
              0,
              rw (read_rounds, a, z, y) refl,
              (
                size',
                inr (
                  refl,
                  (offset + length bytes, ground arith, more),
                  (s, left, ground arith, rw a (ground arith)),
                ),
              ),
            )
            | inr y ↦
                let (s', buffer', r, h, q) =
                  rounds_lem read to_come fuel (read s left).0 before stored (offset + length bytes)
                    (left - length bytes) size p b size' (omega arith) (ground arith) more in
                (
                  s',
                  buffer',
                  r,
                  rounds_step read fuel s buffer bytes offset left a z y (omega arith) le ∙ h,
                  q,
                )
          ]
    ]

-- Over a read that never fails and stores at most what it is asked for, readFixSize ends after at most
-- one round for each byte: the buffer is full of the next bytes in order and it answers the length as
-- an int, its lowest 32 bits, or it answers 0 after a read of nothing, with a proper part of them at the
-- front of the buffer.
pub read_fix_size_lem :
    {S : Type 0} (read : S → ℕ → S × Answer) (to_come : S → List ℕ) (fuel : ℕ) (s : S)
    (buffer : List ℕ)
    → IsServing read to_come
    → length buffer < 2 ^ 64
    → length buffer < fuel
    → (s' : S) × (buffer' : List ℕ) × (r : ℕ) × (read_fix_size read fuel s buffer
        ≡ some (s', buffer', r))
      × Filled read (to_come s) (to_come s') (length buffer) r buffer'
unfolding read_fix_size
read_fix_size_lem read to_come fuel s buffer p b f =
    rounds_lem read to_come fuel s (to_come s) buffer 0 (length buffer) (length buffer) p b refl
      (omega arith) f refl
