-- ===== src/Fiber.antt =====
-- src/fiber.h and src/fiber.cpp: the states of fibers and the pointers of one thread. Fibers live at
-- addresses; an ASSERT that fails is `none`. A context switch is the change of the pointers and
-- states around it; logging, stacks and the saved machine contexts have no state here.
pub mod Lifecycle
mod Runs
use cool.Base.{
  ℕ, ◌+◌, ◌-◌, Bool, true, false, not, ◌||◌, ◌&&◌, Option, none, some, ◌==◌, if◌then◌else◌, is_some,
}

pub data State : Type 0 where
  init hold exec term ready error : State

pub record Fiber : Type 0 where
  pub id : ℕ
  pub stack : Bool
  pub state : State
  pub cb : Option ℕ
  -- CallMainFunc, which ends in back(), for MainFunc, which ends in swapOut().
  pub use_caller : Bool

-- s_fiber_id, s_fiber_count, t_fiber, t_thread_fiber, and the t_fiber of the scheduler.
pub record World : Type 0 where
  pub fibers : ℕ → Fiber
  pub next_address : ℕ
  pub last_id : ℕ
  pub count : ℕ
  pub current : Option ℕ
  pub thread_fiber : Option ℕ
  pub main_fiber : Option ℕ

infixl 5 ◌>>=◌
abbrev pub ◌>>=◌ : {A B : Type 0} → Option A → (A → Option B) → Option B
none >>= f = none
some a >>= f = f a

abbrev pub is_exec : State → Bool
is_exec exec = true
is_exec _ = false

abbrev pub is_term : State → Bool
is_term term = true
is_term _ = false

abbrev pub is_error : State → Bool
is_error error = true
is_error _ = false

abbrev pub is_ready : State → Bool
is_ready ready = true
is_ready _ = false

abbrev pub is_init : State → Bool
is_init init = true
is_init _ = false

-- m_state == TERM || m_state == INIT || m_state == ERROR
abbrev pub is_resting : State → Bool
is_resting s = is_term s || (is_init s || is_error s)

abbrev pub write : World → ℕ → Fiber → World
write w a f = record w { fibers = λ b. if b == a then f else w.fibers b }

abbrev pub set_state : World → ℕ → State → World
set_state w a s = write w a (record (w.fibers a) { state = s })

-- Fiber(): the main fiber of a thread.
unfoldable pub new_main : World → World × ℕ
new_main w =
    let a = w.next_address in
    let f : Fiber = record { id = 0; stack = false; state = exec; cb = none; use_caller = false } in
    (record (write w a f) { next_address = a + 1; count = w.count + 1; current = some a }, a)

-- Fiber(cb, stacksize, use_caller).
unfoldable pub new_fiber : World → Option ℕ → Bool → World × ℕ
new_fiber w cb use_caller =
    let a = w.next_address in
    let f : Fiber = record {
      id = w.last_id + 1;
      stack = true;
      state = init;
      cb = cb;
      use_caller = use_caller;
    } in
    (record (write w a f) { next_address = a + 1; last_id = w.last_id + 1; count = w.count + 1 }, a)

-- GetThis, which makes the main fiber on the first call.
unfoldable pub get_this : World → World × ℕ
get_this w = elim w.current [
  | some a ↦ (w, a)
  | none ↦ (record (new_main w).0 { thread_fiber = some (new_main w).1 }, (new_main w).1)
]

-- reset(cb).
unfoldable pub reset : World → ℕ → Option ℕ → Option World
reset w a cb =
    let f = w.fibers a in
    if f.stack && is_resting f.state
    then some (write w a (record f { cb = cb; use_caller = false; state = init }))
    else none

-- call(): from the thread's fiber into this one.
unfoldable pub call : World → ℕ → World
call w a = record (set_state w a exec) { current = some a }

unfoldable pub back : World → World
back w = record w { current = w.thread_fiber }

unfoldable pub swap_in : World → ℕ → Option World
swap_in w a =
    if is_exec (w.fibers a).state
    then none
    else some (record (set_state w a exec) { current = some a })

unfoldable pub swap_out : World → World
swap_out w = record w { current = w.main_fiber }

unfoldable pub yield_to_ready : World → World
yield_to_ready w = let (w', a) = get_this w in swap_out (set_state w' a ready)

unfoldable pub yield_to_hold : World → World
yield_to_hold w = let (w', a) = get_this w in swap_out (set_state w' a hold)

-- MainFunc and CallMainFunc behind m_cb(): the callback is dropped unless it threw.
unfoldable pub finish : World → Bool → World
finish w threw =
    let (w', a) = get_this w in
    let f = w'.fibers a in
    let done : Fiber =
      if threw then record f { state = error } else record f { cb = none; state = term } in
    if f.use_caller then back (write w' a done) else swap_out (write w' a done)

unfoldable pub total_fibers : World → ℕ
total_fibers w = w.count

unfoldable pub fiber_id : World → ℕ
fiber_id w = elim w.current [ none ↦ 0 | some a ↦ (w.fibers a).id ]

-- ~Fiber().
unfoldable pub destroy : World → ℕ → Option World
destroy w a =
    let f = w.fibers a in
    let w' = record w { count = w.count - 1 } in
    if f.stack
    then (if is_resting f.state then some w' else none)
    else (if not (is_some f.cb) && is_exec f.state
        then some (elim w.current [
          | none ↦ w'
          | some c ↦ if c == a then record w' { current = none } else w'
        ])
        else none)
