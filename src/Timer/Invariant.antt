-- ===== src/Timer/Invariant.antt =====
-- The invariant of the timer set (src/timer.cpp) over every operation.
use cool.Base.{
  ℕ, ◌≡◌, refl, Bool, true, false, ◌||◌, List, [], ◌∷◌, Option, none, some, arith, ◌==◌, Bool-cases,
  inl, inr, is_some, Option-cases,
}
use cool.Timer.{
  Timer, TimerManager, Callback, update, insert, contains, erase, add_locked, add_timer, cancel,
}
use cool.Timer.Order.{
  Sorted, Absent, insert-Sorted, erase-Sorted, erase-Absent, update-Sorted, same_next-Sorted,
}

-- The set is in order, and a Timer that still has its callback is in the set.
pub record Inv (m : TimerManager) : Type 0 where
  pub sorted : Sorted m.objs m.timers
  pub armed : (a : ℕ) → is_some (m.objs a).cb ≡ true → contains a m.timers ≡ true

pub contains-insert :
    (objs : ℕ → Timer) (a b : ℕ) (ts : List ℕ)
    → contains b (insert objs a ts) ≡ (a == b || contains b ts)
unfolding insert contains
contains-insert objs a b [] = refl
contains-insert objs a b (c ∷ cs) = ground (arith, contains-insert objs a b cs)

pub Absent→contains : (a : ℕ) (ts : List ℕ) → Absent a ts → contains a ts ≡ false
unfolding contains
Absent→contains a [] h = refl
Absent→contains a (b ∷ bs) h = rw (h.0, Absent→contains a bs h.1)

pub contains→Absent : (a : ℕ) (ts : List ℕ) → contains a ts ≡ false → Absent a ts
unfolding contains
contains→Absent a [] h = tt
contains→Absent a (b ∷ bs) h = (ground arith, contains→Absent a bs (ground arith))

pub contains-erase_other :
    (a b : ℕ) (ts : List ℕ) → (a == b) ≡ false → contains b (erase a ts) ≡ contains b ts
unfolding contains erase
contains-erase_other a b [] e = refl
contains-erase_other a b (c ∷ cs) e = ground (arith, contains-erase_other a b cs e)

pub contains-erase_self :
    (objs : ℕ → Timer) (a : ℕ) (ts : List ℕ) → Sorted objs ts → contains a (erase a ts) ≡ false
contains-erase_self objs a ts h = Absent→contains a (erase a ts) (erase-Absent objs a ts h)

-- Arming a Timer that is not in the set.
pub insert_fresh-Inv :
    (m : TimerManager) (a : ℕ) (t : Timer) (ts : List ℕ)
    → Sorted m.objs ts
    → contains a ts ≡ false
    → ((b : ℕ) → (a == b) ≡ false → is_some (m.objs b).cb ≡ true → contains b ts ≡ true)
    → Inv (record m { objs = update m.objs a t; timers = insert (update m.objs a t) a ts })
insert_fresh-Inv m a t ts s f h = record {
  sorted = insert-Sorted _ a ts (update-Sorted m.objs a t ts (contains→Absent a ts f) s);
  armed = λ b e. elim (Bool-cases (a == b)) [
    | inl p ↦ rw (contains-insert, p)
    | inr p ↦ rw (contains-insert, p) (h b p (ground arith))
  ];
}

pub add_locked-Inv :
    (m : TimerManager) (a : ℕ)
    → Inv (record m { timers = insert m.objs a m.timers })
    → Inv (add_locked m a)
unfolding add_locked
add_locked-Inv m a v = record {
  sorted = ground (arith, v.sorted);
  armed = λ b e. ground (arith, v.armed b);
}

-- Adding a Timer at an address that is not in the set keeps the order of the set and every armed
-- Timer in it.
pub add_timer-Inv :
    (m : TimerManager) (now a ms : ℕ) (cb : Option Callback) (recurring : Bool)
    → Inv m
    → contains a m.timers ≡ false
    → Inv (add_timer m now a ms cb recurring)
unfolding add_timer
add_timer-Inv m now a ms cb recurring v f =
    add_locked-Inv _ a (insert_fresh-Inv m a _ m.timers v.sorted f (λ b p e. v.armed b e))

pub armed_erase :
    (m : TimerManager) (a : ℕ)
    → Inv m
    → (b : ℕ) → (a == b) ≡ false
    → is_some (m.objs b).cb ≡ true
    → contains b (erase a m.timers) ≡ true
armed_erase m a v b p e = rw (contains-erase_other a b m.timers p) (v.armed b e)

-- Under the invariant cancel never erases the end iterator; it disarms the Timer, keeps the
-- invariant, and answers whether the Timer was armed.
pub cancel_lem :
    (m : TimerManager) (a : ℕ)
    → Inv m
    → (m' : TimerManager) × (cancel m a ≡ some (m', is_some (m.objs a).cb))
      × Inv m'
      × (is_some (m'.objs a).cb ≡ false)
unfolding cancel
cancel_lem m a v = elim (Option-cases (m.objs a).cb) [
  | inl e ↦ (m, rw (e, cancel), v, rw e)
  | inr (f, e) ↦ (
    record m {
      objs = update m.objs a (record (m.objs a) { cb = none });
      timers = erase a m.timers;
    },
    rw (e, cancel) (rw (v.armed a (rw e))),
    record {
      sorted =
          same_next-Sorted m.objs a _ (erase a m.timers) refl
            (erase-Sorted m.objs a m.timers v.sorted);
      armed = λ b q. elim (Bool-cases (a == b)) [
        | inl p ↦ ground arith
        | inr p ↦ armed_erase m a v b p (ground arith)
      ];
    },
    ground arith,
  )
]
