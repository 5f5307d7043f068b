-- ===== src/Timer/Delivery.antt =====
-- Which callbacks listExpiredCb of src/timer.cpp delivers, and what it leaves in the set.
use cool.Base.{
  ℕ, ◌<◌, ◌≡◌, refl, true, false, ◌&&◌, ◌||◌, List, [], ◌∷◌, ◌++◌, Option, arith, if◌then◌else◌,
  All, Bool-cases, inl, inr,
}
use cool.Timer.{
  TimerManager, Callback, contains, fire, pending, expired, list_expired_cb, has_timer, first_later,
  detect_clock_rollover,
}
use cool.Timer.Order.{Sorted}
use cool.Timer.Invariant.{Inv}
use cool.Timer.Cut.{due, later, expired-eq-due, expired-append-pending, All-ge}
use cool.Timer.Fire.{fired, cbs_of, fire-cbs, fire-objs, fire-timers}
use cool.Timer.Expiry.{cut-Firing, append_nil}

-- What an expiry over the cut `xs`, `ys` of the set does: the callbacks of `xs` in order, the new
-- set, and the new state of every Timer.
pub record Expires (m : TimerManager) (now : ℕ) (xs ys : List ℕ)
    (r : TimerManager × List (Option Callback)) : Type 0 where
  pub called : r.1 ≡ cbs_of m.objs xs
  pub kept :
      (b : ℕ) → contains b r.0.timers ≡ (contains b ys || (contains b xs && (m.objs b).recurring))
  pub rearmed : (b : ℕ) → r.0.objs b ≡ (if contains b xs then fired now (m.objs b) else m.objs b)

cut-Expires :
    (m : TimerManager) (now prev : ℕ) (xs ys : List ℕ)
    → Inv m
    → xs ++ ys ≡ m.timers
    → Expires m now xs ys (fire now (record m { previous_time = prev; timers = ys }) xs)
cut-Expires m now prev xs ys v e =
    let f = cut-Firing m xs ys prev v e in
    record {
      called = fire-cbs now _ xs f.once;
      kept = λ b. fire-timers now _ xs b f.once;
      rearmed = λ b. fire-objs now _ xs b f.once;
    }

nothing-Expires :
    (m : TimerManager) (now prev : ℕ)
    → Expires m now [] m.timers (record m { previous_time = prev }, [])
unfolding contains
nothing-Expires m now prev = record { called = refl; kept = λ b. ground arith; rearmed = λ b. refl }

none_due :
    (m : TimerManager) (now : ℕ) (ts : List ℕ)
    → All (λ b. now < (m.objs b).next) ts
    → (due m.objs now ts ≡ []) × (later m.objs now ts ≡ ts)
unfolding due later
none_due m now [] h = (refl, refl)
none_due m now (a ∷ ts) h = ground (arith, h.0, none_due m now ts h.1)

cut_of :
    (m : TimerManager) (now n : ℕ)
    → Inv m
    → Expires m now (due m.objs now m.timers) (later m.objs now m.timers) (
        fire now
          (record m { previous_time = now; timers = pending m.objs now n m.timers })
          (expired m.objs now n m.timers))
cut_of m now n v =
    let (d, l) = expired-eq-due m.objs now n m.timers v.sorted in
    rw (← d, ← l) (cut-Expires m now now _ _ v (expired-append-pending m.objs now n m.timers))

first_later-due :
    (m : TimerManager) (now : ℕ) (ts : List ℕ)
    → m.timers ≡ ts
    → Sorted m.objs ts
    → first_later m now ≡ true
    → (due m.objs now ts ≡ []) × (later m.objs now ts ≡ ts)
first_later-due m now [] e s f = none_due m now [] tt
first_later-due m now (a ∷ ts) e s f =
    let h : now < (m.objs a).next = ground arith in
    none_due m now (a ∷ ts) (h, All-ge m.objs a _ ts h s.0)

no_timers : (m : TimerManager) (ts : List ℕ) → m.timers ≡ ts → has_timer m ≡ false → ts ≡ []
unfolding has_timer
no_timers m [] e h = refl
no_timers m (a ∷ ts) e h = ground arith

-- Under the invariant and with the clock not rolled back, listExpiredCb delivers the callbacks of exactly the due timers,
-- in the order of their times; the other timers stay as they are; of the due ones the recurring
-- ones are pending again at now + ms, and the others have lost their callback.
pub list_expired_cb-Expires :
    (m : TimerManager) (now n : ℕ)
    → Inv m
    → (detect_clock_rollover m now).1 ≡ false
    → Expires m now (due m.objs now m.timers) (later m.objs now m.timers) (list_expired_cb m now n)
unfolding list_expired_cb detect_clock_rollover
list_expired_cb-Expires m now n v r = elim (Bool-cases (has_timer m)) [
  | inr e ↦
      let t = no_timers m m.timers refl e in
      let (d, l) = none_due m now m.timers (rw t tt) in
      rw (e, d, l) (nothing-Expires m now m.previous_time)
  | inl e ↦
      rw (e, r)
        (elim (Bool-cases (first_later m now)) [
          | inl f ↦
              let (d, l) = first_later-due m now m.timers refl v.sorted f in
              rw (f, d, l) (nothing-Expires m now now)
          | inr f ↦ rw f (cut_of m now n v)
        ])
]

-- Under the invariant and with the clock rolled back, listExpiredCb delivers every timer.
pub rollover-Expires :
    (m : TimerManager) (now n : ℕ)
    → Inv m
    → (detect_clock_rollover m now).1 ≡ true
    → Expires m now m.timers [] (list_expired_cb m now n)
unfolding list_expired_cb detect_clock_rollover
rollover-Expires m now n v r = elim (Bool-cases (has_timer m)) [
  | inr e ↦
      let t = no_timers m m.timers refl e in ground (arith, nothing-Expires m now m.previous_time)
  | inl e ↦ rw (e, r) (cut-Expires m now now m.timers [] v (append_nil m.timers))
]
