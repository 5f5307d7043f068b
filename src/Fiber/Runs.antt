-- ===== src/Fiber/Runs.antt =====
-- Fibers of src/fiber.cpp in one thread, and the theorems at them.
use cool.Base.{ℕ, ◌≡◌, refl, true, false, some, is_some, ◌==◌}
use cool.Fiber.{init, World}
use cool.Fiber.Lifecycle.{Ending, readies, after, slice, slice_lem}

-- Fiber 1 is fresh, and control is in fiber 0.
abbrev thread : World
thread = record {
  fibers = λ a. record { id = a; stack = true; state = init; cb = some 9; use_caller = false };
  next_address = 2;
  last_id = 1;
  count = 2;
  current = some 0;
  thread_fiber = some 0;
  main_fiber = some 0;
}

slice_lem_example :
    (w' : World) × (slice thread 1 readies ≡ some w')
    × ((w'.fibers 1).state ≡ after readies)
    × ((w'.fibers 1).cb ≡ some 9)
    × (w'.current ≡ some 0)
    × ((b : ℕ) → (b == 1) ≡ false → w'.fibers b ≡ thread.fibers b)
    × ((e' : Ending) → is_some (slice w' 1 e') ≡ true)
slice_lem_example = slice_lem thread 1 readies refl refl refl
