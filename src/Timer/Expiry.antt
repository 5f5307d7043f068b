-- ===== src/Timer/Expiry.antt =====
-- listExpiredCb of src/timer.cpp and the invariant of the timer set.
use cool.Base.{
  ℕ, ◌≡◌, refl, true, false, ◌||◌, List, [], ◌∷◌, ◌++◌, arith, All, Bool-cases, inl, inr, ap,
}
use cool.Timer.{
  Timer, TimerManager, less, contains, list_expired_cb, has_timer, first_later,
  detect_clock_rollover,
}
use cool.Timer.Order.{Sorted}
use cool.Timer.Invariant.{Inv}
use cool.Timer.Rearm.{Distinct, Firing, fire-Inv}
use cool.Timer.Cut.{expired-append-pending}

contains_after :
    (objs : ℕ → Timer) (a : ℕ) (ts : List ℕ)
    → All (λ b. less objs a b ≡ true) ts
    → contains a ts ≡ false
unfolding contains
contains_after objs a [] h = refl
contains_after objs a (b ∷ ts) h = ground (arith, h.0, contains_after objs a ts h.1)

contains_append_false :
    (a : ℕ) (xs ys : List ℕ)
    → contains a (xs ++ ys) ≡ false
    → (contains a xs ≡ false) × (contains a ys ≡ false)
unfolding contains
contains_append_false a [] ys h = (refl, h)
contains_append_false a (x ∷ xs) ys h = ground (arith, contains_append_false a xs ys)

record Apart (objs : ℕ → Timer) (xs ys : List ℕ) : Type 0 where
  rest_sorted : Sorted objs ys
  front_once : Distinct xs
  disjoint : All (λ a. contains a ys ≡ false) xs

Sorted-split : (objs : ℕ → Timer) (xs ys : List ℕ) → Sorted objs (xs ++ ys) → Apart objs xs ys
Sorted-split objs [] ys s = record { rest_sorted = s; front_once = tt; disjoint = tt }
Sorted-split objs (x ∷ xs) ys s =
    let r = Sorted-split objs xs ys s.1 in
    let (f, g) = contains_append_false x xs ys (contains_after objs x (xs ++ ys) s.0) in
    record {
      rest_sorted = r.rest_sorted;
      front_once = (f, r.front_once);
      disjoint = (g, r.disjoint);
    }

contains-append :
    (a : ℕ) (xs ys : List ℕ) → contains a (xs ++ ys) ≡ (contains a xs || contains a ys)
unfolding contains
contains-append a [] ys = refl
contains-append a (x ∷ xs) ys = ground (arith, contains-append a xs ys)

-- The loop starts from a cut of an ordered set.
pub cut-Firing :
    (m : TimerManager) (xs ys : List ℕ) (prev : ℕ)
    → Inv m
    → xs ++ ys ≡ m.timers
    → Firing (record m { previous_time = prev; timers = ys }) xs
cut-Firing m xs ys prev v e =
    let r = Sorted-split m.objs xs ys (rw e v.sorted) in
    record {
      in_order = r.rest_sorted;
      once = r.front_once;
      apart = r.disjoint;
      reached = λ b h. ground (arith, v.armed b h, contains-append b xs ys, ap (contains b) e);
    }

previous-Inv : (m : TimerManager) (prev : ℕ) → Inv m → Inv (record m { previous_time = prev })
previous-Inv m prev v = record { sorted = v.sorted; armed = v.armed }

pub append_nil : (xs : List ℕ) → xs ++ [] ≡ xs
append_nil [] = refl
append_nil (x ∷ xs) = ap (◌∷◌ x) (append_nil xs)

-- listExpiredCb keeps the invariant on every branch: the set is in order and holds every armed Timer.
pub list_expired_cb-Inv : (m : TimerManager) (now n : ℕ) → Inv m → Inv (list_expired_cb m now n).0
unfolding list_expired_cb detect_clock_rollover
list_expired_cb-Inv m now n v = elim (Bool-cases (has_timer m)) [
  | inr e ↦ rw e v
  | inl e ↦ rw e (elim (Bool-cases (detect_clock_rollover m now).1) [
    | inl r ↦ rw r (fire-Inv now _ m.timers (cut-Firing m m.timers [] now v (append_nil m.timers)))
    | inr r ↦ rw r (elim (Bool-cases (first_later m now)) [
      | inl f ↦ rw f (previous-Inv m now v)
      | inr f ↦
          rw f (
            fire-Inv now _ _
              (cut-Firing m _ _ now v (expired-append-pending m.objs now n m.timers)))
    ])
  ])
]
