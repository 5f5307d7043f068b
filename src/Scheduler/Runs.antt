-- ===== src/Scheduler/Runs.antt =====
-- A queue of src/scheduler.cpp with two fibers, and the theorems at it.
use cool.Base.{ℕ, ◌+◌, ◌++◌, List, ◌≡◌, refl, true, false, [], ◌∷◌, none, some, ◌==◌, if◌then◌else◌}
use cool.Fiber.{State, hold, term, Fiber, World}
use cool.Fiber.Lifecycle.{readies}
use cool.Scheduler.{Scheduler, fiber_task, run_fiber, pick, stopping}
use cool.Scheduler.Queue.{Found, pick-Found}
use cool.Scheduler.Pool.{
  Pool, nobody, rootless, construct, spawn, start, stop, stop_threads, Call, starts, stops,
  run_call, run_calls,
}
use cool.Scheduler.Pool.Joins.{joins_lem}
use cool.Scheduler.Round.{Ran, run_fiber-Ran}

abbrev fiber_in : State → ℕ → Fiber
fiber_in st a = record { id = a; stack = true; state = st; cb = some 9; use_caller = false }

-- Fiber 1 waits, and every other one has ended.
abbrev world : World
world = record {
  fibers = λ a. if a == 1 then fiber_in hold 1 else fiber_in term 2;
  next_address = 3;
  last_id = 2;
  count = 3;
  current = some 0;
  thread_fiber = some 0;
  main_fiber = some 0;
}

abbrev queue : Scheduler
queue = record {
  world = world;
  tasks = fiber_task 2 ∷ [];
  active = 1;
  idle = 0;
  stop = false;
  autostop = false;
  tickles = 0;
  cb_fiber = none;
  idle_fiber = 0;
}

run_fiber-Ran_example :
    (s' : Scheduler) × (run_fiber queue 1 (fiber_task 7 ∷ []) readies ≡ some s')
    × Ran queue 1 (fiber_task 7 ∷ []) readies s'
run_fiber-Ran_example = run_fiber-Ran queue 1 (fiber_task 7 ∷ []) readies refl refl refl refl

pick-Found_example :
    Found world 1 queue.tasks (pick world 1 queue.tasks).1 (pick world 1 queue.tasks).2
pick-Found_example = pick-Found world 1 queue.tasks

-- A pool of two threads without the caller's, as it is made, started and stopped.
abbrev two_threads : Pool
two_threads = rootless world nobody 2

abbrev start_stop : List Call
start_stop = starts (λ i. 40 + i) ∷ stops (λ q. q) ∷ []

abbrev ended_pool : Pool
ended_pool = record two_threads {
  queue = record two_threads.queue { autostop = true; tickles = 2 };
  thread_ids = 40 ∷ 41 ∷ [];
  joined = 40 ∷ 41 ∷ [];
}

ended_run : run_calls two_threads start_stop ≡ some ended_pool
unfolding run_calls run_call start stop stop_threads spawn stopping
ended_run = refl

made_pool : construct world nobody 1 9 2 false ≡ some two_threads
unfolding construct
made_pool = refl

joins_lem_example :
    (ended_pool.thread_ids ≡ [] ++ ended_pool.joined ++ [])
    × (true ≡ true)
    × ((q : Pool) × start ended_pool (λ i. 50 + i) ≡ some q)
joins_lem_example =
    joins_lem world nobody 1 9 2 false two_threads ended_pool start_stop (λ i. 50 + i) made_pool
      ended_run
