-- ===== src/Stream/Fix.antt =====
-- What writeFixSize of src/stream.cpp sends, and when it ends.
use cool.Base.{
  ℕ, zero, suc, ◌+◌, ◌-◌, ◌*◌, ◌%◌, ◌^◌, ◌≤◌, ◌<◌, ◌≡◌, refl, sym, ap, ◌∙◌, ◌⊎◌, inl, inr, false,
  List, [], ◌∷◌, ◌++◌, none, some, arith, ◌==◌, Bool-cases, take, drop, length, length-drop,
}
use mathlib.Core.List.{append-nil, append_assoc}
use cool.ByteArray.Flat.{take_all}
use cool.Stream.{int_of, write_rounds, write_fix_size}

take_add :
    (o n : ℕ) (xs : List ℕ) → o + n ≤ length xs → take (o + n) xs ≡ take o xs ++ take n (drop o xs)
take_add zero n xs h = let e : zero + n ≡ n = omega arith in rw e
take_add (suc o) n [] h = absurd (omega arith)
take_add (suc o) n (x ∷ xs) h =
    let e : suc o + n ≡ suc (o + n) = omega arith in
    rw e (ap (◌∷◌ x) (take_add o n xs (omega arith)))

-- A write that answers 0 to some bytes.
abbrev pub Refused : {S : Type 0} → (S → List ℕ → S × ℕ) → Type 0
Refused {S = S} write = (t : S) × (bs : List ℕ) × (0 < length bs) × ((write t bs).1 ≡ 0)

-- How the loop ends: all was sent and the length is answered as an int, or a write answered 0 after a part.
abbrev pub Ended : {S : Type 0} → (S → List ℕ → S × ℕ) → List ℕ → List ℕ → List ℕ → ℕ → Type 0
Ended write before buffer after r =
    ((r ≡ int_of (length buffer)) × (after ≡ before ++ buffer))
    ⊎ ((r ≡ 0)
        × ((k : ℕ) × (k < length buffer) × (after ≡ before ++ take k buffer))
        × Refused write)

-- A write that takes a part of what it is handed, and sends just that part.
abbrev pub IsPartial : {S : Type 0} → (S → List ℕ → S × ℕ) → (S → List ℕ) → Type 0
IsPartial {S = S} write sent =
    (s : S) (bs : List ℕ)
    → ((write s bs).1 ≤ length bs) × (sent (write s bs).0 ≡ sent s ++ take (write s bs).1 bs)

rounds_step :
    {S : Type 0} (write : S → List ℕ → S × ℕ) (fuel : ℕ) (s : S) (buffer : List ℕ)
    (offset left n : ℕ)
    → n ≡ (write s (take left (drop offset buffer))).1
    → (left == 0) ≡ false
    → (n == 0) ≡ false
    → offset + n < 2 ^ 64
    → n ≤ left
    → left < 2 ^ 64
    → write_rounds write (suc fuel) s buffer offset left
      ≡ write_rounds write fuel
          (write s (take left (drop offset buffer))).0
          buffer
          (offset + n)
          (left - n)
unfolding write_rounds
rounds_step write fuel s buffer offset left n e z y b le c =
    let o : (offset + n) % 2 ^ 64 ≡ offset + n = omega arith in
    let l : (left + 2 ^ 64 - n) % 2 ^ 64 ≡ left - n = omega arith in rw (← e, z, y, o, l)

rounds_lem :
    {S : Type 0} (write : S → List ℕ → S × ℕ) (sent : S → List ℕ) (fuel : ℕ) (s : S)
    (before buffer : List ℕ) (offset left : ℕ)
    → IsPartial write sent
    → length buffer < 2 ^ 64
    → offset + left ≡ length buffer
    → left < fuel
    → sent s ≡ before ++ take offset buffer
    → (s' : S) × (r : ℕ) × (write_rounds write fuel s buffer offset left ≡ some (s', r))
      × Ended write before buffer (sent s') r
unfolding write_rounds
rounds_lem write sent zero s before buffer offset left p b e f g = absurd (omega arith)
rounds_lem write sent (suc fuel) s before buffer offset left p b e f g =
    elim (Bool-cases (left == 0)) [
      | inl z ↦ (
        s,
        int_of (length buffer),
        rw z,
        inl (refl, g ∙ ap (λ l. before ++ l) (take_all offset buffer (ground arith))),
      )
      | inr z ↦
          let bs = take left (drop offset buffer) in
          let whole : bs ≡ drop offset buffer =
            take_all left (drop offset buffer) (omega (arith, length-drop offset buffer)) in
          let (le, se) = p s bs in
          let n = (write s bs).1 in
          let size : length bs ≡ left = rw whole (omega (arith, length-drop offset buffer)) in
          let more : sent (write s bs).0 ≡ before ++ take (offset + n) buffer =
            se
            ∙ ap (λ l. l ++ take n bs) g
            ∙ append_assoc before (take offset buffer) (take n bs)
            ∙ ap (λ l. before ++ l)
                (ap (λ l. take offset buffer ++ take n l) whole
                  ∙ sym (take_add offset n buffer (omega (arith, le, size)))) in
          elim (Bool-cases (n == 0)) [
            | inl y ↦ (
              (write s bs).0,
              0,
              rw (z, y),
              inr (
                refl,
                (offset, ground arith, more ∙ stay (offset + n) (ground arith)),
                (s, bs, ground arith, ground arith),
              ),
            )
            | inr y ↦
                let (s', r, h, k) =
                  rounds_lem write sent fuel (write s bs).0 before buffer (offset + n) (left - n) p
                    b (omega arith) (ground arith) more in
                (
                  s',
                  r,
                  rounds_step write fuel s buffer offset left n refl z y (omega arith) (omega arith)
                        (omega arith)
                      ∙ h,
                  k,
                )
          ]
    ]
  where
    stay : (i : ℕ) → i ≡ offset → before ++ take i buffer ≡ before ++ take offset buffer
    stay i h = ap (λ (j : ℕ). before ++ take j buffer) h

-- Over a write that never fails, and sends just the part that it answers, writeFixSize ends after at
-- most one round for each byte: it has sent the whole buffer in order and answers the length as an
-- int, its lowest 32 bits, or it answers 0 after a write that answered 0 to some bytes and has sent a
-- proper part from the front.
pub write_fix_size_lem :
    {S : Type 0} (write : S → List ℕ → S × ℕ) (sent : S → List ℕ) (fuel : ℕ) (s : S)
    (buffer : List ℕ)
    → IsPartial write sent
    → length buffer < 2 ^ 64
    → length buffer < fuel
    → (s' : S) × (r : ℕ) × (write_fix_size write fuel s buffer ≡ some (s', r))
      × Ended write (sent s) buffer (sent s') r
unfolding write_fix_size
write_fix_size_lem write sent fuel s buffer p b f =
    rounds_lem write sent fuel s (sent s) buffer 0 (length buffer) p b (omega arith) f
      (sym (append-nil (sent s)))

-- A buffer of a multiple of 2 ^ 32 bytes that was sent is answered 0, as if the stream had ended.
int_of_zero : (k : ℕ) → int_of (k * 2 ^ 32) ≡ 0
unfolding int_of
int_of_zero k = omega arith

-- A length that an int holds is answered as it is.
int_of_small : (n : ℕ) → n < 2 ^ 31 → int_of n ≡ n
unfolding int_of
int_of_small n h = omega arith

zero_cases : (n : ℕ) → (n ≡ 0) ⊎ (0 < n)
zero_cases zero = inl refl
zero_cases (suc n) = inr (omega arith)

rounds_failing :
    {S : Type 0} (write : S → List ℕ → S × ℕ) (fuel : ℕ) (s : S) (buffer : List ℕ) (offset left : ℕ)
    → ((t : S) (bs : List ℕ) → (write t bs).1 ≡ 2 ^ 64 - 1)
    → 0 < left
    → fuel + left ≤ 2 ^ 64
    → write_rounds write fuel s buffer offset left ≡ none
unfolding write_rounds
rounds_failing write zero s buffer offset left p h k = refl
rounds_failing write (suc fuel) s buffer offset left p h k =
    let z : (left == 0) ≡ false = ground arith in
    rw (z, p)
      (elim (zero_cases fuel) [
        | inl e ↦ rw e
        | inr e ↦
            let l : (left + 2 ^ 64 - (2 ^ 64 - 1)) % 2 ^ 64 ≡ left + 1 = omega arith in
            rw l (rounds_failing write fuel _ buffer _ (left + 1) p (omega arith) (omega arith))
      ])

-- Over a write that always fails with -1, writeFixSize of a non-empty buffer does not answer the
-- error: it is still in its loop after any number of rounds up to 2 ^ 64 less the length.
pub write_fix_size_failing :
    {S : Type 0} (write : S → List ℕ → S × ℕ) (fuel : ℕ) (s : S) (buffer : List ℕ)
    → ((t : S) (bs : List ℕ) → (write t bs).1 ≡ 2 ^ 64 - 1)
    → 0 < length buffer
    → fuel + length buffer ≤ 2 ^ 64
    → write_fix_size write fuel s buffer ≡ none
unfolding write_fix_size
write_fix_size_failing write fuel s buffer p h k =
    rounds_failing write fuel s buffer 0 (length buffer) p h k
