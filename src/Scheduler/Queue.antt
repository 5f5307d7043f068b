-- ===== src/Scheduler/Queue.antt =====
-- The choice of a task in the loop of run() (src/scheduler.cpp).
use cool.Base.{
  ℕ, Bool, true, false, ◌||◌, List, [], ◌∷◌, ◌++◌, Option, none, some, arith, ◌≡◌, refl, ap, ◌∙◌,
  if◌then◌else◌, All, Bool-cases, inl, inr,
}
use cool.Fiber.{World}
use mathlib.Core.List.{append-nil, append_assoc}
use cool.Scheduler.{
  Task, Scheduler, pick, pinned_elsewhere, is_running, is_work, schedule_no_lock, schedule_loop,
  schedule_all, is_empty,
}

-- A task that thread `me` passes over.
abbrev pub IsSkipped : World → ℕ → Task → Type 0
IsSkipped w me t = (pinned_elsewhere me t || is_running w t) ≡ true

-- What a scan finds: the first task that is not skipped, with all the others left in order.
pub data Found (w : World) (me : ℕ) (ts : List Task) : Option Task → List Task → Type 0 where
  nothing : All (IsSkipped w me) ts → Found w me ts none ts
  first :
      (front back : List Task) (t : Task)
      → ts ≡ front ++ t ∷ back
      → All (IsSkipped w me) front
      → (pinned_elsewhere me t || is_running w t) ≡ false
      → Found w me ts (some t) (front ++ back)

Found-skip :
    {w : World} {me : ℕ} {ts : List Task} (t : Task) {o : Option Task} {rest : List Task}
    → IsSkipped w me t
    → Found w me ts o rest
    → Found w me (t ∷ ts) o (t ∷ rest)
Found-skip t h (nothing a) = nothing (h, a)
Found-skip t h (first front back u e a n) = first (t ∷ front) back u (ap (◌∷◌ t) e) (h, a) n

-- The scan takes the first eligible task: not pinned to another thread, not a running fiber.
pub pick-Found :
    (w : World) (me : ℕ) (ts : List Task) → Found w me ts (pick w me ts).1 (pick w me ts).2
unfolding pick
pick-Found w me [] = nothing tt
pick-Found w me (t ∷ ts) = elim (Bool-cases (pinned_elsewhere me t)) [
  | inl e ↦ rw e (Found-skip t (rw e) (pick-Found w me ts))
  | inr e ↦ elim (Bool-cases (is_running w t)) [
    | inl f ↦ rw (e, f) (Found-skip t (rw (e, f)) (pick-Found w me ts))
    | inr f ↦ rw (e, f) (first [] ts t refl tt (rw (e, f)))
  ]
]

-- The tasks of a list that carry work.
unfoldable pub works : List Task → List Task
works [] = []
works (t ∷ ts) = if is_work t then t ∷ works ts else works ts

no_lock_work :
    (s : Scheduler) (t : Task)
    → is_work t ≡ true
    → schedule_no_lock s t ≡ (record s { tasks = s.tasks ++ t ∷ [] }, is_empty s.tasks)
unfolding schedule_no_lock
no_lock_work s t e = rw e

no_lock_empty :
    (s : Scheduler) (t : Task) → is_work t ≡ false → schedule_no_lock s t ≡ (s, is_empty s.tasks)
unfolding schedule_no_lock
no_lock_empty s t e = rw e

schedule_loop_tasks :
    (s : Scheduler) (ts : List Task) (need : Bool)
    → (schedule_loop s ts need).0 ≡ record s { tasks = s.tasks ++ works ts }
unfolding schedule_loop works
schedule_loop_tasks s [] need = ground (arith, append-nil s.tasks)
schedule_loop_tasks s (t ∷ ts) need = elim (Bool-cases (is_work t)) [
  | inl e ↦
      ap (λ p. (schedule_loop p.0 ts (p.1 || need)).0) (no_lock_work s t e)
      ∙ schedule_loop_tasks (record s { tasks = s.tasks ++ t ∷ [] }) ts (is_empty s.tasks || need)
      ∙ ap (λ (l : List Task). record s { tasks = l })
          (append_assoc s.tasks (t ∷ []) (works ts) ∙ rw e)
  | inr e ↦
      ap (λ p. (schedule_loop p.0 ts (p.1 || need)).0) (no_lock_empty s t e)
      ∙ schedule_loop_tasks s ts (is_empty s.tasks || need)
      ∙ ap (λ (l : List Task). record s { tasks = s.tasks ++ l }) (rw e)
]

-- A batch is queued in order without its empty entries, and touches nothing else but the tickles.
pub schedule_all_tasks :
    (s : Scheduler) (ts : List Task)
    → ((schedule_all s ts).tasks ≡ s.tasks ++ works ts)
      × ((schedule_all s ts).active ≡ s.active)
      × ((schedule_all s ts).world ≡ s.world)
      × ((schedule_all s ts).cb_fiber ≡ s.cb_fiber)
unfolding schedule_all
schedule_all_tasks s ts = elim (Bool-cases (schedule_loop s ts false).1) [
  | inl e ↦ ground (arith, schedule_loop_tasks s ts false)
  | inr e ↦ ground (arith, schedule_loop_tasks s ts false)
]
