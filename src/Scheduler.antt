-- ===== src/Scheduler.antt =====
-- src/scheduler.h and src/scheduler.cpp: the task queue and one round of the loop of run(). What a
-- fiber does in a slice is the argument: the tasks that it schedules, and how the slice ends. The
-- round is that of thread `me`; the mutex makes the choice of a task one step. `none` is a failed
-- ASSERT.
pub mod Queue
pub mod Round
pub mod Pool
mod Runs
use cool.Base.{
  ℕ, ◌+◌, ◌-◌, Bool, true, false, not, ◌||◌, ◌&&◌, List, [], ◌∷◌, ◌++◌, Option, none, some, ◌==◌,
  if◌then◌else◌, is_some,
}
use cool.Fiber.{
  State, hold, Fiber, World, ◌>>=◌, is_exec, is_term, is_error, is_ready, new_fiber, reset,
  set_state,
}
use cool.Fiber.Lifecycle.{Ending, slice}

-- FiberAndThread; `none` for the thread is -1, any thread.
pub record Task : Type 0 where
  pub fiber : Option ℕ
  pub cb : Option ℕ
  pub thread : Option ℕ

pub record Scheduler : Type 0 where
  pub world : World
  pub tasks : List Task
  pub active : ℕ
  pub idle : ℕ
  pub stop : Bool
  pub autostop : Bool
  -- The calls of tickle().
  pub tickles : ℕ
  -- The locals cb_fiber and idle_fiber of run().
  pub cb_fiber : Option ℕ
  pub idle_fiber : ℕ

abbrev pub fiber_task : ℕ → Task
fiber_task a = record { fiber = some a; cb = none; thread = none }

abbrev pub is_work : Task → Bool
is_work t = is_some t.fiber || is_some t.cb

abbrev pub is_empty : List Task → Bool
is_empty [] = true
is_empty (t ∷ ts) = false

-- scheduleNoLock: whether a tickle is needed.
unfoldable pub schedule_no_lock : Scheduler → Task → Scheduler × Bool
schedule_no_lock s t =
    (if is_work t then record s { tasks = s.tasks ++ t ∷ [] } else s, is_empty s.tasks)

abbrev pub tickle_if : Bool → Scheduler → Scheduler
tickle_if b s = if b then record s { tickles = s.tickles + 1 } else s

-- schedule(fc, thread_id).
unfoldable pub schedule : Scheduler → Task → Scheduler
schedule s t = let (s', need) = schedule_no_lock s t in tickle_if need s'

unfoldable pub schedule_loop : Scheduler → List Task → Bool → Scheduler × Bool
schedule_loop s [] need = (s, need)
schedule_loop s (t ∷ ts) need =
    schedule_loop (schedule_no_lock s t).0 ts ((schedule_no_lock s t).1 || need)

-- schedule(begin, end).
unfoldable pub schedule_all : Scheduler → List Task → Scheduler
schedule_all s ts = let (s', need) = schedule_loop s ts false in tickle_if need s'

-- it->thread_id != -1 && it->thread_id != thread_id()
abbrev pub pinned_elsewhere : ℕ → Task → Bool
pinned_elsewhere me t = elim t.thread [ none ↦ false | some n ↦ not (n == me) ]

-- it->fiber && it->fiber->state() == EXEC
abbrev pub is_running : World → Task → Bool
is_running w t = elim t.fiber [ none ↦ false | some a ↦ is_exec (w.fibers a).state ]

-- The scan of m_fibers: whether another thread must be woken, the task, and the tasks that stay.
-- Its ASSERT that a task has a fiber or a callback is left out: scheduleNoLock queues no other task.
unfoldable pub pick : World → ℕ → List Task → Bool × Option Task × List Task
pick w me [] = (false, none, [])
pick w me (t ∷ ts) =
    let (woken, found, rest) = pick w me ts in
    if pinned_elsewhere me t
    then (true, found, t ∷ rest)
    else (if is_running w t then (woken, found, t ∷ rest) else (false, some t, ts))

-- ft.fiber->state() != TERM || ft.fiber->state() != ERROR
abbrev pub resumable : State → Bool
resumable st = not (is_term st) || not (is_error st)

-- The branch of ft.fiber.
unfoldable pub run_fiber : Scheduler → ℕ → List Task → Ending → Option Scheduler
run_fiber s a spawned e = do
  w ← slice s.world a e
  let s1 = schedule_all (record s { world = w }) spawned
  let s2 = record s1 { active = s1.active - 1 }
  let st = (w.fibers a).state
  some (
      if is_ready st
      then record (schedule s2 (fiber_task a)) { cb_fiber = none }
      else (if not (is_term st) && not (is_error st)
          then record s2 { world = set_state w a hold }
          else s2))

-- cb_fiber->reset(ft.cb), or a new fiber.
unfoldable pub cb_fiber_for : World → Option ℕ → ℕ → Option (World × ℕ)
cb_fiber_for w none cb = some (new_fiber w (some cb) false)
cb_fiber_for w (some a) cb = do w' ← reset w a (some cb); some (w', a)

-- The branch of ft.cb.
unfoldable pub run_cb : Scheduler → ℕ → List Task → Ending → Option Scheduler
run_cb s cb spawned e = do
  (w0, a) ← cb_fiber_for s.world s.cb_fiber cb
  w ← slice w0 a e
  let s1 = schedule_all (record s { world = w; cb_fiber = some a }) spawned
  let s2 = record s1 { active = s1.active - 1 }
  let st = (w.fibers a).state
  if is_ready st
      then some (record (schedule s2 (fiber_task a)) { cb_fiber = none })
      else (if is_error st || is_term st
          then (do w' ← reset w a none; some (record s2 { world = w' }))
          else some (record s2 { world = set_state w a hold; cb_fiber = none }))

-- The idle branch, in which the loop ends once the idle fiber has returned.
unfoldable pub run_idle : Scheduler → List Task → Ending → Option (Scheduler × Bool)
run_idle s spawned e = if is_term (s.world.fibers s.idle_fiber).state then some (s, false) else (do
  w ← slice s.world s.idle_fiber e
  let s1 = schedule_all (record s { world = w }) spawned
  let st = (w.fibers s.idle_fiber).state
  some (
    (if not (is_term st) && not (is_error st)
        then record s1 { world = set_state w s.idle_fiber hold }
        else s1),
    true,
  ))

abbrev going : Option Scheduler → Option (Scheduler × Bool)
going none = none
going (some s) = some (s, true)

-- The work of a round on the chosen task.
unfoldable pub run_task : Scheduler → Task → List Task → Ending → Option (Scheduler × Bool)
run_task s t spawned e = elim t.fiber [
  | some a ↦
      if resumable (s.world.fibers a).state then going (run_fiber s a spawned e) else elim t.cb [
        | some cb ↦ going (run_cb s cb spawned e)
        | none ↦ some (record s { active = s.active - 1 }, true)
      ]
  | none ↦ elim t.cb [
    | some cb ↦ going (run_cb s cb spawned e)
    | none ↦ some (record s { active = s.active - 1 }, true)
  ]
]

-- One round of the loop of run() on thread `me`, and whether the loop goes on.
unfoldable pub round : Scheduler → ℕ → List Task → Ending → Option (Scheduler × Bool)
round s me spawned e =
    let (woken, found, rest) = pick s.world me s.tasks in
    elim found [
      | none ↦ run_idle (tickle_if woken (record s { tasks = rest })) spawned e
      | some t ↦
          run_task (tickle_if woken (record s { tasks = rest; active = s.active + 1 })) t spawned e
    ]

-- Scheduler::stopping.
unfoldable pub stopping : Scheduler → Bool
stopping s = s.autostop && (s.stop && (is_empty s.tasks && s.active == 0))
