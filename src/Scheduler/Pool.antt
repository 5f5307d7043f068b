-- ===== src/Scheduler/Pool.antt =====
-- src/scheduler.cpp: the constructor, the destructor, start and stop. The threads are numbers, the
-- ids that Thread answers; `run_fiber` is the callback of the root fiber, and what its call does to
-- the scheduler is the argument `call`. `none` is a failed ASSERT.
pub mod Joins
use cool.Base.{
  ℕ, zero, suc, ◌+◌, ◌-◌, Bool, true, false, not, ◌||◌, ◌&&◌, List, [], ◌∷◌, ◌++◌, Option, none,
  some, ◌==◌, if◌then◌else◌, is_some, length, ltb,
}
use cool.Fiber.{World, is_term, is_init, new_fiber, get_this, ◌>>=◌}
use cool.Scheduler.{Scheduler, stopping}

-- t_scheduler of the calling thread.
pub data This : Type 0 where
  nobody this_one other : This

pub record Pool : Type 0 where
  pub queue : Scheduler
  pub this : This
  -- m_root_fiber, m_root_thread with `none` for -1, and m_thread_count.
  pub root_fiber : Option ℕ
  pub root_thread : Option ℕ
  pub thread_count : ℕ
  pub thread_ids : List ℕ
  -- m_threads, and the threads that stop has joined.
  pub threads : List ℕ
  pub joined : List ℕ

abbrev empty_queue : World → Scheduler
empty_queue w = record {
  world = w;
  tasks = [];
  active = 0;
  idle = 0;
  stop = true;
  autostop = false;
  tickles = 0;
  cb_fiber = none;
  idle_fiber = 0;
}

abbrev pub is_nobody : This → Bool
is_nobody nobody = true
is_nobody this_one = false
is_nobody other = false

abbrev is_this : This → Bool
is_this nobody = false
is_this this_one = true
is_this other = false

-- ASSERT.
abbrev pub check : Bool → Option (Unit {0})
check true = some tt
check false = none

abbrev pub rooted : World → This → ℕ → ℕ → ℕ → Pool
rooted w this me run_fiber size =
    let (w', a) = new_fiber (get_this w).0 (some run_fiber) true in
    record {
      queue = empty_queue w';
      this = this_one;
      root_fiber = some a;
      root_thread = some me;
      thread_count = size - 1;
      thread_ids = me ∷ [];
      threads = [];
      joined = [];
    }

abbrev pub rootless : World → This → ℕ → Pool
rootless w this size = record {
  queue = empty_queue w;
  this = this;
  root_fiber = none;
  root_thread = none;
  thread_count = size;
  thread_ids = [];
  threads = [];
  joined = [];
}

-- Scheduler(thread_size, use_caller, name) on the thread `me`.
unfoldable pub construct : World → This → ℕ → ℕ → ℕ → Bool → Option Pool
construct w this me run_fiber size use_caller =
    if not (ltb 0 size)
    then none
    else (if use_caller
        then (if is_nobody this then some (rooted w this me run_fiber size) else none)
        else some (rootless w this size))

-- The destructor: what t_scheduler is then.
unfoldable pub destroy : Pool → Option This
destroy p = do _ ← check p.queue.stop; some (if is_this p.this then nobody else p.this)

abbrev pub is_empty : List ℕ → Bool
is_empty [] = true
is_empty (t ∷ ts) = false

-- The loop of start: the ids of the threads from `i` on, `n` of them.
unfoldable pub spawn : (ℕ → ℕ) → ℕ → ℕ → List ℕ
spawn ids i zero = []
spawn ids i (suc n) = ids i ∷ spawn ids (suc i) n

abbrev pub set_stop : Bool → Pool → Pool
set_stop b p = record p { queue = record p.queue { stop = b } }

abbrev pub started : Pool → (ℕ → ℕ) → Pool
started p ids = record (set_stop false p) {
  threads = spawn ids 0 p.thread_count;
  thread_ids = p.thread_ids ++ spawn ids 0 p.thread_count;
}

-- start(), where the thread of index `i` gets the id `ids i`.
unfoldable pub start : Pool → (ℕ → ℕ) → Option Pool
start p ids =
    if not p.queue.stop then some p else (do _ ← check (is_empty p.threads); some (started p ids))

abbrev add_tickles : ℕ → Scheduler → Scheduler
add_tickles n s = record s { tickles = s.tickles + n }

abbrev pub is_some_root : Pool → Bool
is_some_root p = is_some p.root_fiber

-- m_root_fiber->state() is TERM or INIT.
abbrev root_rests : Pool → Bool
root_rests p = elim p.root_fiber [
  | none ↦ false
  | some a ↦ is_term (p.queue.world.fibers a).state || is_init (p.queue.world.fibers a).state
]

-- GetThis() == this with a root thread, and GetThis() != this without.
abbrev pub on_right_thread : Pool → Bool
on_right_thread p = if is_some p.root_thread then is_this p.this else not (is_this p.this)

-- The branch at the top of stop for a pool of the root fiber alone.
abbrev pub stop_alone : Pool → Pool
stop_alone p =
    if is_some_root p && (p.thread_count == 0 && root_rests p) then set_stop true p else p

abbrev pub returns_early : Pool → Bool
returns_early p =
    is_some_root p && (p.thread_count == 0 && root_rests p) && stopping (set_stop true p).queue

-- The rest of stop: the tickles, the call of the root fiber, and the joins.
unfoldable pub stop_threads : (Scheduler → Scheduler) → Pool → Pool
stop_threads call p =
    let q = add_tickles (p.thread_count + (if is_some_root p then 1 else 0)) p.queue in
    record p {
      queue = if is_some_root p && not (stopping q) then call q else q;
      threads = [];
      joined = p.joined ++ p.threads;
    }

-- stop().
unfoldable pub stop : (Scheduler → Scheduler) → Pool → Option Pool
stop call p =
    let p1 = stop_alone (record p { queue = record p.queue { autostop = true } }) in
    if returns_early (record p { queue = record p.queue { autostop = true } })
    then some p1
    else (do _ ← check (on_right_thread p1); some (stop_threads call (set_stop true p1)))

-- What the owner calls.
pub data Call : Type 0 where
  starts : (ids : ℕ → ℕ) → Call
  stops : (call : Scheduler → Scheduler) → Call

unfoldable pub run_call : Pool → Call → Option Pool
run_call p (starts ids) = start p ids
run_call p (stops call) = stop call p

unfoldable pub run_calls : Pool → List Call → Option Pool
run_calls p [] = some p
run_calls p (c ∷ cs) = do p' ← run_call p c; run_calls p' cs
