-- ===== src/Hook.antt =====
-- src/hook.cpp: the system calls behind the hooks: the world they change, sleep and socket. A call of the system is the list of its answers, in
-- the order in which it is made; what other fibers do during a wait is the function `others` of a
-- `Wake`. Descriptors are not negative.
pub mod Io
pub mod Options
pub mod Safety
pub mod Timeout
pub mod Nonblock
mod Runs
use cool.Base.{
  ℕ, zero, suc, ◌+◌, ◌*◌, ◌/◌, ◌%◌, ◌^◌, Bool, true, false, not, ◌&&◌, ◌||◌, List, [], ◌∷◌, ◌++◌,
  Option, none, some, ltb, ◌-◌, ◌==◌, if◌then◌else◌, is_some,
}
use cool.Timer.{TimerManager, Callback, plain}
use cool.Timer
use cool.IoManager.{IoManager, Event, read, write, add_event, cancel_event, cancel_all}
use cool.Fd.{Kernel, FdCtx, FdManager}
use cool.Fd

-- What a system call answers: a number, or -1 with its errno.
pub data Answer : Type 0 where
  returned : ℕ → Answer
  failed : ℕ → Answer

abbrev pub eintr : ℕ
eintr = 4

abbrev pub ebadf : ℕ
ebadf = 9

abbrev pub eagain : ℕ
eagain = 11

abbrev pub etimedout : ℕ
etimedout = 110

abbrev pub einprogress : ℕ
einprogress = 115

abbrev pub is_failed : ℕ → Answer → Bool
is_failed errno (returned n) = false
is_failed errno (failed e) = e == errno

pub record World : Type 0 where
  pub iom : IoManager
  pub timers : TimerManager
  pub fds : FdManager
  pub kernel : Kernel
  -- t_hook_enable, and the scheduler and the fiber that run.
  pub hook_enable : Bool
  pub scheduler : Option ℕ
  pub fiber : ℕ

-- A call that has its result, one that still waits for an answer or to be woken, and one that failed
-- an ASSERT or followed a null or dangling pointer.
pub data Outcome (A : Type 0) : Type 0 where
  done : A → Outcome A
  waiting : Outcome A
  fault : Outcome A

infixl 5 ◌>>=◌
abbrev pub ◌>>=◌ : {A B : Type 0} → Outcome A → (A → Outcome B) → Outcome B
done a >>= f = f a
waiting >>= f = waiting
fault >>= f = fault

abbrev pub check : {A : Type 0} → Option A → Outcome A
check none = fault
check (some a) = done a

-- FdMgr::instance()->get(fd), which changes nothing.
abbrev pub context_of : World → ℕ → Option FdCtx
context_of w fd = Fd.at w.fds fd

-- FdMgr::instance()->get(fd, true).
unfoldable pub make_context : World → ℕ → Outcome World
make_context w fd = do
  (k, m, c) ← check (Fd.get w.kernel w.fds fd true)
  done (record w { kernel = k; fds = m })

-- socket(): the answer of socket_f comes with the kernel in which the descriptor is open.
unfoldable pub socket : World → Answer → Outcome (World × Answer)
socket w (failed e) = done (w, failed e)
socket w (returned fd) =
    if not w.hook_enable
    then done (w, returned fd)
    else (do w' ← make_context w fd; done (w', returned fd))

-- The milliseconds of sleep (unsigned int arithmetic), usleep and nanosleep (an int).
unfoldable pub sleep_ms : ℕ → ℕ
sleep_ms seconds = seconds * 1000 % 2 ^ 32

unfoldable pub usleep_ms : ℕ → ℕ
usleep_ms usec = usec / 1000

-- The value of an int, given by its 32 bits, as a uint64_t.
abbrev pub sign_extend : ℕ → ℕ
sign_extend v = if ltb v (2 ^ 31) then v else v + (2 ^ 64 - 2 ^ 32)

unfoldable pub nanosleep_ms : ℕ → ℕ → ℕ
nanosleep_ms sec nsec = sign_extend ((sec * 1000 + nsec / 1000 / 1000) % 2 ^ 32)

-- sleep(), usleep() and nanosleep() under the hooks: a timer, at a new address, which schedules the
-- running fiber, and a wait; the callback is named by the fiber.
unfoldable pub sleep_for : World → ℕ → ℕ → ℕ → World
sleep_for w now address ms = record w {
  timers = Timer.add_timer w.timers now address ms (some (plain w.fiber)) false;
}

unfoldable pub sleep : World → ℕ → ℕ → ℕ → Option World
sleep w now address seconds =
    if not w.hook_enable then none else some (sleep_for w now address (sleep_ms seconds))

unfoldable pub usleep : World → ℕ → ℕ → ℕ → Option World
usleep w now address usec =
    if not w.hook_enable then none else some (sleep_for w now address (usleep_ms usec))

-- Without hooks nanosleep calls itself, not nanosleep_f: on `fuel` calls.
unfoldable pub nanosleep : ℕ → World → ℕ → ℕ → ℕ → ℕ → Outcome World
nanosleep zero w now address sec nsec = waiting
nanosleep (suc fuel) w now address sec nsec =
    let rest = nanosleep fuel w now address sec nsec in
    if not w.hook_enable then rest else done (sleep_for w now address (nanosleep_ms sec nsec))
