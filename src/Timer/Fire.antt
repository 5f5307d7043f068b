-- ===== src/Timer/Fire.antt =====
-- What the loop over the expired timers of src/timer.cpp does to each Timer and to the set.
use cool.Base.{
  ℕ, ◌+◌, ◌≡◌, refl, false, ◌&&◌, ◌||◌, List, [], ◌∷◌, map, Option, none, arith, ◌==◌,
  if◌then◌else◌, Bool-cases, inl, inr, ap, ◌∙◌,
}
use cool.Timer.{Timer, TimerManager, Callback, update, contains, fire_one, fire, wrap64}
use cool.Timer.Invariant.{contains-insert}
use cool.Timer.Rearm.{Distinct}

-- The effect of one firing on a Timer.
abbrev pub fired : ℕ → Timer → Timer
fired now t =
    if t.recurring then record t { next = wrap64 (now + t.ms) } else record t { cb = none }

abbrev pub cbs_of : (ℕ → Timer) → List ℕ → List (Option Callback)
cbs_of objs = map (λ a. (objs a).cb)

fire_one-objs :
    (now : ℕ) (m : TimerManager) (a b : ℕ)
    → (fire_one now m a).objs b ≡ (if b == a then fired now (m.objs a) else m.objs b)
unfolding fire_one
fire_one-objs now m a b = elim (Bool-cases (m.objs a).recurring) [ inl e ↦ rw e | inr e ↦ rw e ]

fire_one-timers :
    (now : ℕ) (m : TimerManager) (a b : ℕ)
    → contains b (fire_one now m a).timers
      ≡ (contains b m.timers || (a == b && (m.objs a).recurring))
unfolding fire_one
fire_one-timers now m a b = elim (Bool-cases (m.objs a).recurring) [
  | inl e ↦ rw e (
      ground (
        arith,
        contains-insert
            (update m.objs a (record (m.objs a) { next = wrap64 (now + (m.objs a).ms) })) a b
            m.timers,
      ))
  | inr e ↦ rw e (ground arith)
]

cbs_same :
    (now : ℕ) (m : TimerManager) (a : ℕ) (ts : List ℕ)
    → contains a ts ≡ false
    → cbs_of (fire_one now m a).objs ts ≡ cbs_of m.objs ts
unfolding contains
cbs_same now m a [] h = refl
cbs_same now m a (b ∷ ts) h = ground (arith, fire_one-objs now m a b, cbs_same now m a ts)

pub fire-cbs :
    (now : ℕ) (m : TimerManager) (ts : List ℕ) → Distinct ts → (fire now m ts).1 ≡ cbs_of m.objs ts
unfolding fire
fire-cbs now m [] d = refl
fire-cbs now m (a ∷ ts) d =
    ap (◌∷◌ (m.objs a).cb) (fire-cbs now (fire_one now m a) ts d.1 ∙ cbs_same now m a ts d.0)

pub fire-objs :
    (now : ℕ) (m : TimerManager) (ts : List ℕ) (b : ℕ)
    → Distinct ts
    → (fire now m ts).0.objs b ≡ (if contains b ts then fired now (m.objs b) else m.objs b)
unfolding fire contains
fire-objs now m [] b d = refl
fire-objs now m (a ∷ ts) b d =
    ground (arith, fire-objs now (fire_one now m a) ts b d.1, fire_one-objs now m a b, d.0)

pub fire-timers :
    (now : ℕ) (m : TimerManager) (ts : List ℕ) (b : ℕ)
    → Distinct ts
    → contains b (fire now m ts).0.timers
      ≡ (contains b m.timers || (contains b ts && (m.objs b).recurring))
unfolding fire contains
fire-timers now m [] b d = ground arith
fire-timers now m (a ∷ ts) b d = ground (
  arith,
  fire-timers now (fire_one now m a) ts b d.1,
  fire_one-objs now m a b,
  fire_one-timers now m a b,
  d.0,
)
