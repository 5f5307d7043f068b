-- ===== src/Scheduler/Pool/Joins.antt =====
-- Which threads start and stop of src/scheduler.cpp have made and joined.
use mathlib.Core.Path.{subst}
use mathlib.Core.List.{append_assoc, append-nil}
use cool.Base.{
  ℕ, zero, suc, ◌≡◌, refl, sym, ap, ◌∙◌, Bool, true, false, not, ◌||◌, List, [], ◌∷◌, ◌++◌, Option,
  none, some, ltb, ◌⊎◌, ◌==◌, if◌then◌else◌, Bool-cases, inl, inr, arith,
}
use cool.Fiber.{World, ◌>>=◌}
use cool.Scheduler.{Scheduler}
use cool.Scheduler.Pool.{
  Pool, This, is_nobody, rooted, rootless, construct, check, is_empty, spawn, started, start, stop,
  stop_alone, returns_early, on_right_thread, stop_threads, set_stop, Call, starts, stops, run_call,
  run_calls,
}

abbrev pub roots : Option ℕ → List ℕ
roots none = []
roots (some me) = me ∷ []

-- Every thread id is that of the calling thread, of a thread that was joined, or of one that runs; no
-- thread runs while m_stop is set, or if there is none to start.
pub record Inv (p : Pool) : Type 0 where
  pub accounted : p.thread_ids ≡ roots p.root_thread ++ (p.joined ++ p.threads)
  pub stopped : not p.queue.stop || is_empty p.threads ≡ true
  pub none_ : not (p.thread_count == 0) || is_empty p.threads ≡ true

empty_nil : (ts : List ℕ) → is_empty ts ≡ true → ts ≡ []
empty_nil [] e = refl
empty_nil (t ∷ ts) e = absurd cc

or_true : (b c : Bool) → not b || c ≡ true → b ≡ true → c ≡ true
or_true b c h e = ground arith

spawn_none : (ids : ℕ → ℕ) (n : ℕ) → not (n == 0) || is_empty (spawn ids 0 n) ≡ true
unfolding spawn
spawn_none ids zero = refl
spawn_none ids (suc n) = ground arith

Inv-started : (p : Pool) (ids : ℕ → ℕ) → Inv p → is_empty p.threads ≡ true → Inv (started p ids)
Inv-started p ids v e = record {
  accounted =
      ap (λ l. l ++ new) (v.accounted ∙ ap (λ l. roots p.root_thread ++ (p.joined ++ l)) nil)
      ∙ append_assoc (roots p.root_thread) (p.joined ++ []) new
      ∙ ap (λ l. roots p.root_thread ++ (l ++ new)) (append-nil p.joined);
  stopped = refl;
  none_ = spawn_none ids p.thread_count;
}
  where
    new : List ℕ
    new = spawn ids 0 p.thread_count

    nil : p.threads ≡ []
    nil = empty_nil p.threads e

-- start in a pool that keeps the invariant never fails its ASSERT.
start-Inv : (p : Pool) (ids : ℕ → ℕ) → Inv p → (p' : Pool) × (start p ids ≡ some p') × Inv p'
unfolding start
start-Inv p ids v = elim (Bool-cases p.queue.stop) [
  | inr e ↦ (p, rw e refl, v)
  | inl e ↦
      let left : is_empty p.threads ≡ true = or_true p.queue.stop _ v.stopped e in
      (started p ids, rw (e, left) refl, Inv-started p ids v left)
]

Inv-set_stop : (p : Pool) → Inv p → is_empty p.threads ≡ true → Inv (set_stop true p)
Inv-set_stop p v e = record { accounted = v.accounted; stopped = e; none_ = v.none_ }

Inv-stop_alone : (p : Pool) → Inv p → Inv (stop_alone p)
Inv-stop_alone p v = ground (arith, v.none_, v.accounted, v.stopped)

Inv-stop_threads :
    (call : Scheduler → Scheduler) (p : Pool) → Inv p → Inv (stop_threads call (set_stop true p))
unfolding stop_threads
Inv-stop_threads call p v = record {
  accounted =
      v.accounted ∙ ap (λ l. roots p.root_thread ++ l) (sym (append-nil (p.joined ++ p.threads)));
  stopped = ground arith;
  none_ = ground arith;
}

-- The two ways in which stop ends.
stop_cases :
    (early right : Bool) (p1 q p' : Pool)
    → (if early then some p1 else (check right >>= λ _. some q)) ≡ some p'
    → (p1 ≡ p') ⊎ (q ≡ p')
stop_cases true right p1 q p' e = inl cc
stop_cases false true p1 q p' e = inr cc
stop_cases false false p1 q p' e = absurd cc

Inv-autostop : (p : Pool) → Inv p → Inv (record p { queue = record p.queue { autostop = true } })
Inv-autostop p v = record { accounted = v.accounted; stopped = v.stopped; none_ = v.none_ }

stop-Inv : (p p' : Pool) (call : Scheduler → Scheduler) → Inv p → stop call p ≡ some p' → Inv p'
unfolding stop
stop-Inv p p' call v e =
    let p0 = record p { queue = record p.queue { autostop = true } } in
    let alone = Inv-stop_alone p0 (Inv-autostop p v) in
    elim (stop_cases (returns_early p0) (on_right_thread (stop_alone p0)) (stop_alone p0)
      (stop_threads call (set_stop true (stop_alone p0))) p' e) [
        | inl k ↦ subst Inv k alone
        | inr k ↦ subst Inv k (Inv-stop_threads call (stop_alone p0) alone)
      ]

construct_cases :
    (bad here free : Bool) (x y p : Pool)
    → (if bad then none else (if here then (if free then some x else none) else some y)) ≡ some p
    → (x ≡ p) ⊎ (y ≡ p)
construct_cases true here free x y p e = absurd cc
construct_cases false true true x y p e = inl cc
construct_cases false true false x y p e = absurd cc
construct_cases false false free x y p e = inr cc

construct-Inv :
    (w : World) (this : This) (me run_fiber size : ℕ) (use_caller : Bool) (p : Pool)
    → construct w this me run_fiber size use_caller ≡ some p
    → Inv p
unfolding construct
construct-Inv w this me run_fiber size use_caller p e =
    elim (construct_cases (not (ltb 0 size)) use_caller (is_nobody this)
      (rooted w this me run_fiber size) (rootless w this size) p e) [
        | inl k ↦ subst Inv k (record { accounted = refl; stopped = refl; none_ = ground arith })
        | inr k ↦ subst Inv k (record { accounted = refl; stopped = refl; none_ = ground arith })
      ]

bind_some :
    {A B : Type 0} (o : Option A) (f : A → Option B) (b : B)
    → o >>= f ≡ some b
    → (a : A) × (o ≡ some a) × (f a ≡ some b)
bind_some none f b e = absurd cc
bind_some (some a) f b e = (a, refl, e)

run_call-Inv : (p p' : Pool) (c : Call) → Inv p → run_call p c ≡ some p' → Inv p'
unfolding run_call
run_call-Inv p p' (starts ids) v e =
    let (q, k, u) = start-Inv p ids v in
    let same : ◌≡◌ {A = Option Pool} (some q) (some p') = sym k ∙ e in
    let eq : q ≡ p' = cc in subst Inv eq u
run_call-Inv p p' (stops call) v e = stop-Inv p p' call v e

run_calls-Inv : (cs : List Call) (p p' : Pool) → Inv p → run_calls p cs ≡ some p' → Inv p'
unfolding run_calls
run_calls-Inv [] p p' v e = let eq : p ≡ p' = cc in subst Inv eq v
run_calls-Inv (c ∷ cs) p p' v e =
    let (q, k, l) = bind_some (run_call p c) (λ q. run_calls q cs) p' e in
    run_calls-Inv cs q p' (run_call-Inv p q c v k) l

-- Over any calls of start and stop on a new Scheduler that fail no ASSERT, whatever the call of the
-- root fiber does to the queue: the thread ids are that of the caller's thread, if it takes part, then
-- those that stop has joined, in order, then those of m_threads; while m_stop is set there are none
-- of the latter; and a further start does not fail its ASSERT.
pub joins_lem :
    (w : World) (this : This) (me run_fiber size : ℕ) (use_caller : Bool) (p p' : Pool)
    (cs : List Call) (ids : ℕ → ℕ)
    → construct w this me run_fiber size use_caller ≡ some p
    → run_calls p cs ≡ some p'
    → (p'.thread_ids ≡ roots p'.root_thread ++ (p'.joined ++ p'.threads))
      × (not p'.queue.stop || is_empty p'.threads ≡ true)
      × ((q : Pool) × (start p' ids ≡ some q))
joins_lem w this me run_fiber size use_caller p p' cs ids made ran =
    let v = run_calls-Inv cs p p' (construct-Inv w this me run_fiber size use_caller p made) ran in
    let (q, e, _) = start-Inv p' ids v in (v.accounted, v.stopped, (q, e))
