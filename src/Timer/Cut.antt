-- ===== src/Timer/Cut.antt =====
-- Where listExpiredCb of src/timer.cpp cuts the timer set, against plain filters.
use cool.Base.{
  ℕ, ◌≤◌, ◌<◌, ◌≡◌, refl, Bool, true, false, List, [], ◌∷◌, ◌++◌, arith, leb, ◌==◌, if◌then◌else◌,
  All, Bool-cases, inl, inr, sym, ap, ◌∙◌,
}
use cool.Timer.{Timer, less, take_while, drop_while, pending, expired, before, exactly}
use cool.Timer.Order.{Sorted}
use mathlib.Core.List.{append_assoc}

-- The timers of a list whose time has come, and the others, in order.
unfoldable pub due : (ℕ → Timer) → ℕ → List ℕ → List ℕ
due objs now [] = []
due objs now (a ∷ ts) = if leb (objs a).next now then a ∷ due objs now ts else due objs now ts

unfoldable pub later : (ℕ → Timer) → ℕ → List ℕ → List ℕ
later objs now [] = []
later objs now (a ∷ ts) = if leb (objs a).next now then later objs now ts else a ∷ later objs now ts

take-append-drop_while : (p : ℕ → Bool) (ts : List ℕ) → take_while p ts ++ drop_while p ts ≡ ts
take-append-drop_while p [] = refl
take-append-drop_while p (a ∷ ts) = ground (arith, take-append-drop_while p ts)

pub expired-append-pending :
    (objs : ℕ → Timer) (now n : ℕ) (ts : List ℕ)
    → expired objs now n ts ++ pending objs now n ts ≡ ts
expired-append-pending objs now n ts =
    rw append_assoc (
      rw (take-append-drop_while (exactly objs now))
        (take-append-drop_while (before objs now n) ts))

All-take_while :
    (P : ℕ → Type 0) (p : ℕ → Bool) (ts : List ℕ)
    → ((a : ℕ) → p a ≡ true → P a)
    → All P (take_while p ts)
All-take_while P p [] h = tt
All-take_while P p (a ∷ ts) h = elim (Bool-cases (p a)) [
  | inl e ↦ rw e (h a e, All-take_while P p ts h)
  | inr e ↦ rw e tt
]

All-append : (P : ℕ → Type 0) (xs ys : List ℕ) → All P xs → All P ys → All P (xs ++ ys)
All-append P [] ys h k = k
All-append P (x ∷ xs) ys h k = (h.0, All-append P xs ys h.1 k)

expired-All :
    (objs : ℕ → Timer) (now n : ℕ) (ts : List ℕ)
    → All (λ a. (objs a).next ≤ now) (expired objs now n ts)
expired-All objs now n ts =
    All-append (λ a. (objs a).next ≤ now) _ _
      (All-take_while (λ a. (objs a).next ≤ now) (before objs now n) ts (λ a e. ground arith))
      (All-take_while (λ a. (objs a).next ≤ now) (exactly objs now) _ (λ a e. ground arith))

drop_while-Sorted :
    (objs : ℕ → Timer) (p : ℕ → Bool) (ts : List ℕ) → Sorted objs ts → Sorted objs (drop_while p ts)
drop_while-Sorted objs p [] h = tt
drop_while-Sorted objs p (a ∷ ts) h = elim (Bool-cases (p a)) [
  | inl e ↦ rw e (drop_while-Sorted objs p ts h.1)
  | inr e ↦ rw e h
]

-- In an ordered list whose first time passes a lower bound, all do.
pub All-ge :
    (objs : ℕ → Timer) (a k : ℕ) (ts : List ℕ)
    → k ≤ (objs a).next
    → All (λ b. less objs a b ≡ true) ts
    → All (λ b. k ≤ (objs b).next) ts
All-ge objs a k [] h s = tt
All-ge objs a k (b ∷ ts) h s = (ground (arith, s.0), All-ge objs a k ts h s.1)

drop_while-ge :
    (objs : ℕ → Timer) (k : ℕ) (p : ℕ → Bool) (ts : List ℕ)
    → ((a : ℕ) → p a ≡ false → k ≤ (objs a).next)
    → Sorted objs ts
    → All (λ b. k ≤ (objs b).next) (drop_while p ts)
drop_while-ge objs k p [] h s = tt
drop_while-ge objs k p (a ∷ ts) h s = elim (Bool-cases (p a)) [
  | inl e ↦ rw e (drop_while-ge objs k p ts h s.1)
  | inr e ↦ rw e (h a e, All-ge objs a k ts (h a e) s.0)
]

drop_equal-gt :
    (objs : ℕ → Timer) (now : ℕ) (ts : List ℕ)
    → All (λ b. now ≤ (objs b).next) ts
    → Sorted objs ts
    → All (λ b. now < (objs b).next) (drop_while (exactly objs now) ts)
drop_equal-gt objs now [] h s = tt
drop_equal-gt objs now (a ∷ ts) h s = elim (Bool-cases ((objs a).next == now)) [
  | inl e ↦ rw e (drop_equal-gt objs now ts h.1 s.1)
  | inr e ↦
      let later : now < (objs a).next = ground (arith, h.0) in
      rw e (later, All-ge objs a _ ts later s.0)
]

pending-All :
    (objs : ℕ → Timer) (now n : ℕ) (ts : List ℕ)
    → Sorted objs ts
    → All (λ a. now < (objs a).next) (pending objs now n ts)
pending-All objs now n ts s =
    drop_equal-gt objs now _ (drop_while-ge objs now (before objs now n) ts (λ a e. ground arith) s)
      (drop_while-Sorted objs _ ts s)

due_split :
    (objs : ℕ → Timer) (now : ℕ) (xs ys : List ℕ)
    → All (λ a. (objs a).next ≤ now) xs
    → All (λ a. now < (objs a).next) ys
    → (due objs now (xs ++ ys) ≡ xs) × (later objs now (xs ++ ys) ≡ ys)
unfolding due later
due_split objs now [] [] h k = (refl, refl)
due_split objs now [] (y ∷ ys) h k = ground (arith, due_split objs now [] ys tt k.1, k.0)
due_split objs now (x ∷ xs) ys h k = ground (arith, due_split objs now xs ys h.1 k, h.0)

-- On an ordered set, what listExpiredCb takes up to lower_bound and the equal times behind it are
-- the timers whose time has come, and what stays are the others, whatever the address of now_timer.
pub expired-eq-due :
    (objs : ℕ → Timer) (now n : ℕ) (ts : List ℕ)
    → Sorted objs ts
    → (expired objs now n ts ≡ due objs now ts) × (pending objs now n ts ≡ later objs now ts)
expired-eq-due objs now n ts s =
    let (d, l) =
      due_split objs now (expired objs now n ts) (pending objs now n ts) (expired-All objs now n ts)
        (pending-All objs now n ts s) in
    (
      sym d ∙ ap (due objs now) (expired-append-pending objs now n ts),
      sym l ∙ ap (later objs now) (expired-append-pending objs now n ts),
    )
