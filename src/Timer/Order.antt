-- ===== src/Timer/Order.antt =====
-- The order of the timer set (src/timer.cpp): every operation keeps it, although the operations
-- write to the very field by which the set is ordered.
use cool.Base.{ℕ, ◌≡◌, true, false, List, [], ◌∷◌, arith, ◌==◌, All, Bool-cases, inl, inr}
use cool.Timer.{Timer, update, less, insert, erase}

-- Each element stands before all later ones.
abbrev pub Sorted : (ℕ → Timer) → List ℕ → Type 0
Sorted objs [] = Unit {0}
Sorted objs (a ∷ ts) = All (λ b. less objs a b ≡ true) ts × Sorted objs ts

abbrev pub Absent : ℕ → List ℕ → Type 0
Absent a = All (λ b. (b == a) ≡ false)

pub All-insert :
    (P : ℕ → Type 0) (objs : ℕ → Timer) (a : ℕ) (ts : List ℕ)
    → P a
    → All P ts
    → All P (insert objs a ts)
unfolding insert
All-insert P objs a [] pa h = (pa, tt)
All-insert P objs a (b ∷ bs) pa h = ground (arith, All-insert P objs a bs pa h.1)

pub All-erase : (P : ℕ → Type 0) (a : ℕ) (ts : List ℕ) → All P ts → All P (erase a ts)
unfolding erase
All-erase P a [] h = tt
All-erase P a (b ∷ bs) h = ground (arith, All-erase P a bs h.1)

All-trans :
    (objs : ℕ → Timer) (a b : ℕ) (ts : List ℕ)
    → less objs a b ≡ true
    → All (λ c. less objs b c ≡ true) ts
    → All (λ c. less objs a c ≡ true) ts
All-trans objs a b [] h k = tt
All-trans objs a b (c ∷ cs) h k = (ground arith, All-trans objs a b cs h k.1)

pub insert-Sorted :
    (objs : ℕ → Timer) (a : ℕ) (ts : List ℕ) → Sorted objs ts → Sorted objs (insert objs a ts)
unfolding insert
insert-Sorted objs a [] h = (tt, tt)
insert-Sorted objs a (b ∷ bs) h = elim (Bool-cases (less objs a b)) [
  | inl e ↦ rw e ((e, All-trans objs a b bs e h.0), h)
  | inr e ↦ rw e (elim (Bool-cases (less objs b a)) [
    | inl f ↦
        rw f (All-insert (λ c. less objs b c ≡ true) objs a bs f h.0, insert-Sorted objs a bs h.1)
    | inr f ↦ rw f h
  ])
]

pub erase-Sorted :
    (objs : ℕ → Timer) (a : ℕ) (ts : List ℕ) → Sorted objs ts → Sorted objs (erase a ts)
unfolding erase
erase-Sorted objs a [] h = tt
erase-Sorted objs a (b ∷ bs) h = elim (Bool-cases (b == a)) [
  | inl e ↦ rw e h.1
  | inr e ↦ rw e (All-erase _ a bs h.0, erase-Sorted objs a bs h.1)
]

-- What is erased from an ordered set is gone: it stood there once.
later-Absent :
    (objs : ℕ → Timer) (a b : ℕ) (ts : List ℕ)
    → (b == a) ≡ true
    → All (λ c. less objs b c ≡ true) ts
    → Absent a ts
later-Absent objs a b [] e h = tt
later-Absent objs a b (c ∷ cs) e h = (ground arith, later-Absent objs a b cs e h.1)

pub erase-Absent : (objs : ℕ → Timer) (a : ℕ) (ts : List ℕ) → Sorted objs ts → Absent a (erase a ts)
unfolding erase
erase-Absent objs a [] h = tt
erase-Absent objs a (b ∷ bs) h = elim (Bool-cases (b == a)) [
  | inl e ↦ rw e (later-Absent objs a b bs e h.0)
  | inr e ↦ rw e (e, erase-Absent objs a bs h.1)
]

-- A write to a Timer outside the set does not disturb the order.
update-All :
    (objs : ℕ → Timer) (a : ℕ) (t : Timer) (b : ℕ) (ts : List ℕ)
    → (b == a) ≡ false
    → Absent a ts
    → All (λ c. less objs b c ≡ true) ts
    → All (λ c. less (update objs a t) b c ≡ true) ts
update-All objs a t b [] e h k = tt
update-All objs a t b (c ∷ cs) e h k = (rw (e, h.0) k.0, update-All objs a t b cs e h.1 k.1)

pub update-Sorted :
    (objs : ℕ → Timer) (a : ℕ) (t : Timer) (ts : List ℕ)
    → Absent a ts
    → Sorted objs ts
    → Sorted (update objs a t) ts
update-Sorted objs a t [] h k = tt
update-Sorted objs a t (b ∷ bs) h k =
    (update-All objs a t b bs h.0 h.1 k.0, update-Sorted objs a t bs h.1 k.1)

-- A write that leaves the time alone does not either.
same_next_less :
    (objs : ℕ → Timer) (a : ℕ) (t : Timer) (b c : ℕ)
    → t.next ≡ (objs a).next
    → less objs b c ≡ true
    → less (update objs a t) b c ≡ true
same_next_less objs a t b c e k = elim (Bool-cases (b == a)) [
  | inl p ↦ elim (Bool-cases (c == a)) [ inl q ↦ ground arith | inr q ↦ ground arith ]
  | inr p ↦ elim (Bool-cases (c == a)) [ inl q ↦ ground arith | inr q ↦ ground arith ]
]

same_next-All :
    (objs : ℕ → Timer) (a : ℕ) (t : Timer) (b : ℕ) (ts : List ℕ)
    → t.next ≡ (objs a).next
    → All (λ c. less objs b c ≡ true) ts
    → All (λ c. less (update objs a t) b c ≡ true) ts
same_next-All objs a t b [] e k = tt
same_next-All objs a t b (c ∷ cs) e k =
    (same_next_less objs a t b c e k.0, same_next-All objs a t b cs e k.1)

pub same_next-Sorted :
    (objs : ℕ → Timer) (a : ℕ) (t : Timer) (ts : List ℕ)
    → t.next ≡ (objs a).next
    → Sorted objs ts
    → Sorted (update objs a t) ts
same_next-Sorted objs a t [] e k = tt
same_next-Sorted objs a t (b ∷ bs) e k =
    (same_next-All objs a t b bs e k.0, same_next-Sorted objs a t bs e k.1)
