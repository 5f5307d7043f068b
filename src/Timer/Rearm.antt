-- ===== src/Timer/Rearm.antt =====
-- Refreshing, resetting and firing a Timer (src/timer.cpp) keep the invariant of the set.
use cool.Base.{
  ℕ, ◌≡◌, refl, Bool, true, false, not, ◌&&◌, ◌||◌, List, [], ◌∷◌, none, arith, ◌==◌, All,
  Bool-cases, inl, inr, is_some,
}
use cool.Timer.{
  Timer, TimerManager, update, insert, contains, erase, add_locked, refresh, reset, fire, fire_one,
}
use cool.Timer.Order.{Sorted, insert-Sorted, erase-Sorted, update-Sorted}
use cool.Timer.Invariant.{
  Inv, insert_fresh-Inv, add_locked-Inv, armed_erase, contains-erase_self, contains-insert,
  contains→Absent,
}

-- refresh keeps the invariant: the set stays in order although the key of a Timer is written.
pub refresh-Inv : (m : TimerManager) (now a : ℕ) → Inv m → Inv (refresh m now a).0
unfolding refresh
refresh-Inv m now a v = elim (Bool-cases (is_some (m.objs a).cb && contains a m.timers)) [
  | inl e ↦ rw e (
      insert_fresh-Inv m a _ (erase a m.timers) (erase-Sorted m.objs a m.timers v.sorted)
        (contains-erase_self m.objs a m.timers v.sorted) (armed_erase m a v))
  | inr e ↦ rw e v
]

reset_body-Inv :
    (m : TimerManager) (a : ℕ) (t : Timer)
    → Inv m
    → Inv (add_locked (record m { objs = update m.objs a t; timers = erase a m.timers }) a)
reset_body-Inv m a t v = add_locked-Inv _ a (
    insert_fresh-Inv m a t (erase a m.timers) (erase-Sorted m.objs a m.timers v.sorted)
      (contains-erase_self m.objs a m.timers v.sorted) (armed_erase m a v))

-- reset keeps the invariant on every branch, with the new period and from either start.
pub reset-Inv :
    (m : TimerManager) (now a ms : ℕ) (from_now : Bool) → Inv m → Inv (reset m now a ms from_now).0
unfolding reset
reset-Inv m now a ms from_now v = elim (Bool-cases (ms == (m.objs a).ms && not from_now)) [
  | inl e ↦ rw e v
  | inr e ↦ rw e (elim (Bool-cases (is_some (m.objs a).cb && contains a m.timers)) [
    | inl f ↦ rw f (reset_body-Inv m a _ v)
    | inr f ↦ rw f v
  ])
]

-- No Timer stands twice.
abbrev pub Distinct : List ℕ → Type 0
Distinct [] = Unit {0}
Distinct (a ∷ ts) = (contains a ts ≡ false) × Distinct ts

-- What the loop over the expired timers needs: `ts` are the timers that it has not reached.
pub record Firing (m : TimerManager) (ts : List ℕ) : Type 0 where
  pub in_order : Sorted m.objs m.timers
  pub once : Distinct ts
  pub apart : All (λ a. contains a m.timers ≡ false) ts
  pub reached :
      (b : ℕ) → is_some (m.objs b).cb ≡ true → (contains b m.timers || contains b ts) ≡ true

apart-insert :
    (objs : ℕ → Timer) (a : ℕ) (set ts : List ℕ)
    → contains a ts ≡ false
    → All (λ b. contains b set ≡ false) ts
    → All (λ b. contains b (insert objs a set) ≡ false) ts
unfolding contains
apart-insert objs a set [] h k = tt
apart-insert objs a set (b ∷ bs) h k =
    (rw contains-insert (ground (arith, k.0)), apart-insert objs a set bs (ground arith) k.1)

fire_recurring :
    (m : TimerManager) (a : ℕ) (t : Timer) (ts : List ℕ)
    → Firing m (a ∷ ts)
    → Firing
        (record m { objs = update m.objs a t; timers = insert (update m.objs a t) a m.timers })
        ts
unfolding contains
fire_recurring m a t ts f = record {
  in_order =
      insert-Sorted _ a m.timers
        (update-Sorted m.objs a t m.timers (contains→Absent a m.timers f.apart.0) f.in_order);
  once = f.once.1;
  apart = apart-insert _ a m.timers ts f.once.0 f.apart.1;
  reached = λ b e.
      rw contains-insert
        (elim (Bool-cases (a == b)) [ inl p ↦ rw p | inr p ↦ ground (arith, f.reached b) ]);
}

fire_once :
    (m : TimerManager) (a : ℕ) (t : Timer) (ts : List ℕ)
    → t.cb ≡ none
    → Firing m (a ∷ ts)
    → Firing (record m { objs = update m.objs a t }) ts
unfolding contains
fire_once m a t ts n f = record {
  in_order = update-Sorted m.objs a t m.timers (contains→Absent a m.timers f.apart.0) f.in_order;
  once = f.once.1;
  apart = f.apart.1;
  reached = λ b e. ground (arith, f.reached b);
}

fire_one-Firing :
    (now : ℕ) (m : TimerManager) (a : ℕ) (ts : List ℕ)
    → Firing m (a ∷ ts)
    → Firing (fire_one now m a) ts
unfolding fire_one
fire_one-Firing now m a ts f = elim (Bool-cases (m.objs a).recurring) [
  | inl e ↦ rw e (fire_recurring m a _ ts f)
  | inr e ↦ rw e (fire_once m a _ ts refl f)
]

pub fire-Inv : (now : ℕ) (m : TimerManager) (ts : List ℕ) → Firing m ts → Inv (fire now m ts).0
unfolding fire
fire-Inv now m [] f = record {
  sorted = f.in_order;
  armed = λ b e. unfold contains in ground (arith, f.reached b e);
}
fire-Inv now m (a ∷ ts) f = fire-Inv now (fire_one now m a) ts (fire_one-Firing now m a ts f)
