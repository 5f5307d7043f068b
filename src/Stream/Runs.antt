-- ===== src/Stream/Runs.antt =====
-- Streams that take two bytes at a time, or give one, under writeFixSize and readFixSize of
-- src/stream.cpp.
use cool.Base.{ℕ, zero, suc, ◌≡◌, refl, sym, List, [], ◌∷◌, ◌++◌, some, arith}
use mathlib.Core.List.{append-nil}
use cool.Stream.{Answer, got, write_fix_size, read_fix_size}
use cool.Stream.Read.{IsServing, Filled, read_fix_size_lem}
use cool.Stream.Fix.{Ended, IsPartial, write_fix_size_lem}

-- The stream is what it has sent.
abbrev two_at_a_time : List ℕ → List ℕ → List ℕ × ℕ
two_at_a_time s [] = (s, 0)
two_at_a_time s (x ∷ []) = (s ++ x ∷ [], 1)
two_at_a_time s (x ∷ y ∷ bs) = (s ++ x ∷ y ∷ [], 2)

two_at_a_time-IsPartial : IsPartial two_at_a_time (λ s. s)
two_at_a_time-IsPartial s [] = (omega arith, sym (append-nil s))
two_at_a_time-IsPartial s (x ∷ []) = (omega arith, refl)
two_at_a_time-IsPartial s (x ∷ y ∷ bs) = (omega arith, refl)

write_fix_size_lem_example :
    (s' : List ℕ) × (r : ℕ) × (write_fix_size two_at_a_time 4 (9 ∷ []) (1 ∷ 2 ∷ 3 ∷ [])
      ≡ some (s', r))
    × Ended two_at_a_time (9 ∷ []) (1 ∷ 2 ∷ 3 ∷ []) s' r
write_fix_size_lem_example =
    write_fix_size_lem two_at_a_time (λ s. s) 4 (9 ∷ []) (1 ∷ 2 ∷ 3 ∷ []) two_at_a_time-IsPartial
      (omega arith) (omega arith)

-- The stream is what it has still to give, a byte at a time.
abbrev one_at_a_time : List ℕ → ℕ → List ℕ × Answer
one_at_a_time [] n = ([], got [])
one_at_a_time (x ∷ s) zero = (x ∷ s, got [])
one_at_a_time (x ∷ s) (suc n) = (s, got (x ∷ []))

one_at_a_time-IsServing : IsServing one_at_a_time (λ s. s)
one_at_a_time-IsServing [] n = ([], refl, omega arith, refl)
one_at_a_time-IsServing (x ∷ s) zero = ([], refl, omega arith, refl)
one_at_a_time-IsServing (x ∷ s) (suc n) = (x ∷ [], refl, omega arith, refl)

read_fix_size_lem_example :
    (s' : List ℕ) × (buffer' : List ℕ) × (r : ℕ) × (read_fix_size one_at_a_time 3
        (7 ∷ 8 ∷ 9 ∷ [])
        (0 ∷ 0 ∷ [])
      ≡ some (s', buffer', r))
    × Filled one_at_a_time (7 ∷ 8 ∷ 9 ∷ []) s' 2 r buffer'
read_fix_size_lem_example =
    read_fix_size_lem one_at_a_time (λ s. s) 3 (7 ∷ 8 ∷ 9 ∷ []) (0 ∷ 0 ∷ []) one_at_a_time-IsServing
      (omega arith) (omega arith)
