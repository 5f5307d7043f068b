-- ===== src/Scheduler/Round.antt =====
-- One round of the loop of run() (src/scheduler.cpp): a fiber's slice and its place in the queue.
use mathlib.Core.List.{append-nil, append_assoc}
use cool.Base.{
  ℕ, ◌-◌, false, List, [], ◌∷◌, ◌++◌, none, some, arith, ◌==◌, ◌≡◌, ap, ◌∙◌, inl, inr, ◌⊎◌, sym,
}
use cool.Fiber.{hold, term, ready, error, World, is_exec, is_term, is_error, set_state}
use cool.Fiber.Lifecycle.{
  Ending, readies, holds, returns, raises, after, slice, slice_ended, slice_lem,
}
use cool.Scheduler.{
  Task, Scheduler, schedule_no_lock, schedule, schedule_all, fiber_task, run_fiber, run_task,
}
use cool.Scheduler.Queue.{works, schedule_all_tasks}

schedule_fiber :
    (s : Scheduler) (a : ℕ)
    → ((schedule s (fiber_task a)).tasks ≡ s.tasks ++ fiber_task a ∷ [])
      × ((schedule s (fiber_task a)).active ≡ s.active)
      × ((schedule s (fiber_task a)).world ≡ s.world)
unfolding schedule schedule_no_lock
schedule_fiber s a = ground arith

-- Whether a fiber goes back to the queue after its slice.
unfoldable pub requeued : Ending → ℕ → List Task
requeued readies a = fiber_task a ∷ []
requeued _ a = []

-- The round of a fiber that may run.
pub record Ran (s : Scheduler) (a : ℕ) (spawned : List Task) (e : Ending) (s' : Scheduler)
    : Type 0 where
  pub queued : s'.tasks ≡ s.tasks ++ (works spawned ++ requeued e a)
  pub active_less : s'.active ≡ s.active - 1
  pub left_in : (s'.world.fibers a).state ≡ after e
  pub others : (b : ℕ) → (b == a) ≡ false → s'.world.fibers b ≡ s.world.fibers b

-- The scheduler behind the slice and the tasks that it scheduled.
abbrev entered : Scheduler → World → List Task → Scheduler
entered s w spawned =
    let s1 = schedule_all (record s { world = w }) spawned in record s1 { active = s1.active - 1 }

run_ready :
    (s : Scheduler) (a : ℕ) (spawned : List Task) (e : Ending) (w : World)
    → slice s.world a e ≡ some w
    → (w.fibers a).state ≡ ready
    → run_fiber s a spawned e
      ≡ some (record (schedule (entered s w spawned) (fiber_task a)) { cb_fiber = none })
unfolding run_fiber
run_ready s a spawned e w h k = rw h (rw k)

run_hold :
    (s : Scheduler) (a : ℕ) (spawned : List Task) (e : Ending) (w : World)
    → slice s.world a e ≡ some w
    → (w.fibers a).state ≡ hold
    → run_fiber s a spawned e ≡ some (record (entered s w spawned) { world = set_state w a hold })
unfolding run_fiber
run_hold s a spawned e w h k = rw h (rw k)

run_term :
    (s : Scheduler) (a : ℕ) (spawned : List Task) (e : Ending) (w : World)
    → slice s.world a e ≡ some w
    → (w.fibers a).state ≡ term
    → run_fiber s a spawned e ≡ some (entered s w spawned)
unfolding run_fiber
run_term s a spawned e w h k = rw h (rw k)

run_error :
    (s : Scheduler) (a : ℕ) (spawned : List Task) (e : Ending) (w : World)
    → slice s.world a e ≡ some w
    → (w.fibers a).state ≡ error
    → run_fiber s a spawned e ≡ some (entered s w spawned)
unfolding run_fiber
run_error s a spawned e w h k = rw h (rw k)

-- A fiber that is neither running nor ended and returns to the scheduler is run for one slice: what it scheduled is queued behind the tasks that
-- waited, itself last and only if it yielded to READY; the count of active threads goes down; its
-- state is that of the slice's end, and no other fiber changes.
pub run_fiber-Ran :
    (s : Scheduler) (a : ℕ) (spawned : List Task) (e : Ending)
    → is_exec (s.world.fibers a).state ≡ false
    → is_term (s.world.fibers a).state ≡ false
    → is_error (s.world.fibers a).state ≡ false
    → (s.world.fibers a).use_caller ≡ false
    → (s' : Scheduler) × (run_fiber s a spawned e ≡ some s') × Ran s a spawned e s'
unfolding requeued
run_fiber-Ran s a spawned readies h t r k =
    let (w, n, st, cb, c, o, again) = slice_lem s.world a readies h (rw (t, r)) k in
    let (q, ac, wo, cf) = schedule_all_tasks (record s { world = w }) spawned in
    let (q2, ac2, wo2) = schedule_fiber (entered s w spawned) a in
    (
      _,
      run_ready s a spawned readies w n st,
      record {
        queued = q2 ∙ rw q (append_assoc s.tasks (works spawned) (fiber_task a ∷ []));
        active_less = ac2 ∙ ap (λ (i : ℕ). i - 1) ac;
        left_in = ap (λ (v : World). (v.fibers a).state) (wo2 ∙ wo) ∙ st;
        others = λ b d. ap (λ (v : World). v.fibers b) (wo2 ∙ wo) ∙ o b d;
      },
    )
run_fiber-Ran s a spawned holds h t r k =
    let (w, n, st, cb, c, o, again) = slice_lem s.world a holds h (rw (t, r)) k in
    let (q, ac, wo, cf) = schedule_all_tasks (record s { world = w }) spawned in
    (
      _,
      run_hold s a spawned holds w n st,
      record {
        queued = q ∙ ap (λ l. s.tasks ++ l) (sym (append-nil (works spawned)));
        active_less = ap (λ (i : ℕ). i - 1) ac;
        left_in = ground arith;
        others = λ b d. ground (arith, o b d);
      },
    )
run_fiber-Ran s a spawned returns h t r k =
    let (w, n, st, cb, c, o, again) = slice_lem s.world a returns h (rw (t, r)) k in
    let (q, ac, wo, cf) = schedule_all_tasks (record s { world = w }) spawned in
    (
      _,
      run_term s a spawned returns w n st,
      record {
        queued = q ∙ ap (λ l. s.tasks ++ l) (sym (append-nil (works spawned)));
        active_less = ap (λ (i : ℕ). i - 1) ac;
        left_in = ap (λ (v : World). (v.fibers a).state) wo ∙ st;
        others = λ b d. ap (λ (v : World). v.fibers b) wo ∙ o b d;
      },
    )
run_fiber-Ran s a spawned raises h t r k =
    let (w, n, st, cb, c, o, again) = slice_lem s.world a raises h (rw (t, r)) k in
    let (q, ac, wo, cf) = schedule_all_tasks (record s { world = w }) spawned in
    (
      _,
      run_error s a spawned raises w n st,
      record {
        queued = q ∙ ap (λ l. s.tasks ++ l) (sym (append-nil (works spawned)));
        active_less = ap (λ (i : ℕ). i - 1) ac;
        left_in = ap (λ (v : World). (v.fibers a).state) wo ∙ st;
        others = λ b d. ap (λ (v : World). v.fibers b) wo ∙ o b d;
      },
    )

-- A queued fiber that has ended passes the guard before its slice, is entered again, and fails
-- MainFunc's last ASSERT2.
pub run_ended :
    (s : Scheduler) (a : ℕ) (t : Task) (spawned : List Task) (e : Ending)
    → t.fiber ≡ some a
    → ((s.world.fibers a).state ≡ term) ⊎ ((s.world.fibers a).state ≡ error)
    → run_task s t spawned e ≡ none
unfolding run_task run_fiber
run_ended s a t spawned e f (inl h) = rw f (rw (slice_ended s.world a e (rw h), h))
run_ended s a t spawned e f (inr h) = rw f (rw (slice_ended s.world a e (rw h), h))
