-- ===== src/Timer/Wait.antt =====
-- How long getNextTimer of src/timer.cpp lets its caller sleep.
use cool.Base.{
  if◌then◌else◌, leb, ℕ, ◌+◌, ◌-◌, ◌≤◌, ◌<◌, ◌≡◌, ◌≢◌, refl, List, [], ◌∷◌, arith, leb, All,
}
use cool.Timer.{Timer, TimerManager, get_next_timer}
use cool.Timer.Order.{Sorted}
use cool.Timer.Cut.{due, All-ge}

none_before :
    (objs : ℕ → Timer) (t k : ℕ) (ts : List ℕ)
    → t < k
    → All (λ b. k ≤ (objs b).next) ts
    → due objs t ts ≡ []
unfolding due
none_before objs t k [] h s = refl
none_before objs t k (a ∷ ts) h s = ground (arith, s.0, none_before objs t k ts h s.1)

-- For a non-empty ordered set, after the wait that getNextTimer answers a timer is due, and none is
-- due at any moment before.
pub get_next_timer_lem :
    (m : TimerManager) (now a k : ℕ) (ts : List ℕ)
    → m.timers ≡ a ∷ ts
    → Sorted m.objs (a ∷ ts)
    → k < (get_next_timer m now).1
    → (due m.objs (now + (get_next_timer m now).1) m.timers ≢ [])
      × (due m.objs (now + k) m.timers ≡ [])
unfolding get_next_timer due
get_next_timer_lem m now a k ts e s h =
    let h' : k < (if leb (m.objs a).next now then 0 else (m.objs a).next - now) = rw e at h in
    rw e (
      ground arith,
      none_before m.objs (now + k) (m.objs a).next (a ∷ ts) (ground arith)
          (omega arith, All-ge m.objs a (m.objs a).next ts (omega arith) s.0),
    )
