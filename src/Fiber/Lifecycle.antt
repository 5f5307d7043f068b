-- ===== src/Fiber/Lifecycle.antt =====
-- The life of a fiber (src/fiber.cpp): from a fresh one over its slices to its end and its reuse.
use cool.Base.{
  ℕ, Bool, true, false, not, ◌||◌, if◌then◌else◌, Option, none, some, ◌==◌, ◌≡◌, ◌∙◌, refl, arith,
  ◌↔◌, is_some,
}
use cool.Fiber.{
  State, init, hold, exec, term, ready, error, World, is_exec, is_term, is_error, is_resting,
  get_this, reset, swap_in, swap_out, yield_to_ready, yield_to_hold, finish, destroy, ◌>>=◌, write,
  set_state,
}

-- How a slice of a fiber ends: a yield of its callback, its return, or an exception, which is all that
-- an empty m_cb can do.
pub data Ending : Type 0 where
  readies holds returns raises : Ending

abbrev pub after : Ending → State
after readies = ready
after holds = hold
after returns = term
after raises = error

-- TERM or ERROR.
abbrev pub is_ended : State → Bool
is_ended s = is_term s || is_error s

-- swapIn and what runs behind it. A fiber that ended goes on behind the swapOut of MainFunc, or the
-- back of CallMainFunc, and fails the last ASSERT2 there.
unfoldable pub resume : World → ℕ → Option World
resume w a = if is_ended (w.fibers a).state then none else swap_in w a

-- A slice: in, then out by a yield or by the end of the callback.
unfoldable pub slice : World → ℕ → Ending → Option World
slice w a readies = do w' ← resume w a; some (yield_to_ready w')
slice w a holds = do w' ← resume w a; some (yield_to_hold w')
slice w a returns = do w' ← resume w a; some (finish w' false)
slice w a raises = do w' ← resume w a; some (finish w' true)

abbrev running : World → ℕ → World
running w a = record (set_state w a exec) { current = some a }

pub slice_ended :
    (w : World) (a : ℕ) (e : Ending) → is_ended (w.fibers a).state ≡ true → slice w a e ≡ none
unfolding slice resume
slice_ended w a readies h = rw h
slice_ended w a holds h = rw h
slice_ended w a returns h = rw h
slice_ended w a raises h = rw h

-- A slice fails exactly on a fiber that runs, by the ASSERT of swapIn, or has ended, by the last
-- ASSERT2 of its main function.
slice_iff :
    (w : World) (a : ℕ) (e : Ending)
    → is_some (slice w a e) ≡ not (is_exec (w.fibers a).state || is_ended (w.fibers a).state)
unfolding slice resume swap_in
slice_iff w a readies = ground arith
slice_iff w a holds = ground arith
slice_iff w a returns = ground arith
slice_iff w a raises = ground arith

again_lem :
    (w : World) (a : ℕ) (e e' : Ending)
    → (w.fibers a).state ≡ after e
    → is_some (slice w a e') ≡ not (is_ended (after e))
again_lem w a readies e' h = slice_iff w a e' ∙ rw h
again_lem w a holds e' h = slice_iff w a e' ∙ rw h
again_lem w a returns e' h = slice_iff w a e' ∙ rw h
again_lem w a raises e' h = slice_iff w a e' ∙ rw h

-- A slice of a fiber that is neither running nor ended and returns to the scheduler succeeds: it
-- leaves the fiber in the state of its ending, with control back in the scheduler's fiber; only a
-- return drops the callback, and no other fiber changes. The fiber can then be entered again exactly
-- if it yielded: behind a return or a raise a further slice fails an ASSERT2.
pub slice_lem :
    (w : World) (a : ℕ) (e : Ending)
    → is_exec (w.fibers a).state ≡ false
    → is_ended (w.fibers a).state ≡ false
    → (w.fibers a).use_caller ≡ false
    → (w' : World) × (slice w a e ≡ some w')
      × ((w'.fibers a).state ≡ after e)
      × ((w'.fibers a).cb ≡ (elim e [ returns ↦ none | _ ↦ (w.fibers a).cb ]))
      × (w'.current ≡ w.main_fiber)
      × ((b : ℕ) → (b == a) ≡ false → w'.fibers b ≡ w.fibers b)
      × ((e' : Ending) → is_some (slice w' a e') ≡ not (is_ended (after e)))
unfolding slice resume swap_in yield_to_ready yield_to_hold finish get_this swap_out
slice_lem w a readies h n k =
    let w' = yield_to_ready (running w a) in
    let left : (w'.fibers a).state ≡ ready = ground arith in
    (
      w',
      rw (h, n),
      left,
      ground arith,
      refl,
      (λ b d. ground arith),
      λ e'. again_lem w' a readies e' left,
    )
slice_lem w a holds h n k =
    let w' = yield_to_hold (running w a) in
    let left : (w'.fibers a).state ≡ hold = ground arith in
    (
      w',
      rw (h, n),
      left,
      ground arith,
      refl,
      (λ b d. ground arith),
      λ e'. again_lem w' a holds e' left,
    )
slice_lem w a returns h n k =
    let w' = finish (running w a) false in
    let left : (w'.fibers a).state ≡ term = ground arith in
    (
      w',
      rw (h, n),
      left,
      ground arith,
      ground arith,
      (λ b d. ground arith),
      λ e'. again_lem w' a returns e' left,
    )
slice_lem w a raises h n k =
    let w' = finish (running w a) true in
    let left : (w'.fibers a).state ≡ error = ground arith in
    (
      w',
      rw (h, n),
      left,
      ground arith,
      ground arith,
      (λ b d. ground arith),
      λ e'. again_lem w' a raises e' left,
    )

-- A fiber with a stack that is neither running nor ended and returns to the scheduler can be reset after a slice
-- that ends its callback: it is fresh, with the new callback and its old stack.
pub reuse :
    (w : World) (a : ℕ) (cb : Option ℕ)
    → is_exec (w.fibers a).state ≡ false
    → is_ended (w.fibers a).state ≡ false
    → (w.fibers a).use_caller ≡ false
    → (w.fibers a).stack ≡ true
    → (w' : World) × ((do w1 ← slice w a returns; reset w1 a cb) ≡ some w')
      × ((w'.fibers a).state ≡ init)
      × ((w'.fibers a).cb ≡ cb)
      × ((w'.fibers a).stack ≡ true)
unfolding slice resume swap_in finish get_this swap_out reset
reuse w a cb h n k s =
    let w1 = finish (running w a) false in
    (
      write w1 a (record (w1.fibers a) { cb = cb; use_caller = false; state = init }),
      rw (h, n) (ground arith),
      ground arith,
      ground arith,
      ground arith,
    )

-- reset succeeds exactly on a fiber with a stack that is not in the middle of its callback.
pub reset_iff :
    (w : World) (a : ℕ) (cb : Option ℕ)
    → (is_some (reset w a cb) ≡ true)
      ↔ (((w.fibers a).stack ≡ true) × (is_resting (w.fibers a).state ≡ true))
unfolding reset
reset_iff w a cb = ground arith

-- A fiber with a stack is destroyed without a failed ASSERT exactly when it could be reset.
pub destroy-reset :
    (w : World) (a : ℕ) (cb : Option ℕ)
    → (w.fibers a).stack ≡ true
    → is_some (destroy w a) ≡ is_some (reset w a cb)
unfolding destroy reset
destroy-reset w a cb h = ground arith
