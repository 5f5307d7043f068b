-- ===== src/Thread/Runs.antt =====
-- Tests of the locks and the threads at concrete states, and the witnesses.
use cool.Base.{ℕ, ◌≤◌, Bool, true, false, [], ◌∷◌, none, some, ◌≡◌, refl, take, if◌then◌else◌, ltb}
use cool.Base.Text.{codes, c_str}
use native.Mathlib.Decide.{ℕ_discrete}
use cool.Thread.Locks.{
  Lockable, RwLockable, use_lock, use_unlock, acquire, construct, use_scope, scope, locked_scope,
  read_scope, write_scope, cas_new, cas_lock, cas_unlock, null_lock, null_unlock,
}
use cool.Thread.Scope.{locked_scope_restores}
use cool.Thread.Spin.{Spins, Reach, inside, spinning, begin_, taken, start, later, mutual_exclusion}
use cool.Thread.Start.{
  Thread, Starting, create, run_step, rename, runs, waits, renames, returned, thread_name,
  start as created, later as next,
}
use cool.Thread.Start.{Reach as Started}
use cool.Thread.Handshake.{rank, returned_started, called_once}
use cool.Thread.Join.{pthread_join, join, destroy, lifetime, any_zero, reaped_by, lifetime_reaped}

cas_unlock_lock : (s t : Bool) → cas_lock s ≡ some t → cas_unlock t ≡ s
unfolding cas_lock cas_unlock
cas_unlock_lock true t e = absurd cc
cas_unlock_lock false t e = refl

abbrev cas : Lockable Bool
cas = record { lock = cas_lock; unlock = cas_unlock; unlock_lock = cas_unlock_lock }

abbrev cas_rw : RwLockable Bool
cas_rw = record {
  rdlock = cas_lock;
  wrlock = cas_lock;
  unlock = cas_unlock;
  unlock_rdlock = cas_unlock_lock;
  unlock_wrlock = cas_unlock_lock;
}

abbrev null_mutex : Lockable (Unit {0})
null_mutex = record { lock = null_lock; unlock = null_unlock; unlock_lock = λ s t e. refl }

null_scope : locked_scope null_mutex (use_lock ∷ use_unlock ∷ []) tt ≡ some tt
unfolding locked_scope scope construct acquire null_lock use_scope
null_scope = refl

locked_scope_restores_example :
    (locked_scope cas (use_unlock ∷ use_lock ∷ use_lock ∷ []) false ≡ some false)
    × (read_scope cas_rw (use_unlock ∷ use_lock ∷ use_lock ∷ []) false ≡ some false)
    × (write_scope cas_rw (use_unlock ∷ use_lock ∷ use_lock ∷ []) false ≡ some false)
unfolding cas_lock
locked_scope_restores_example =
    locked_scope_restores cas cas_rw (use_unlock ∷ use_lock ∷ use_lock ∷ []) false true true true
      refl refl refl

-- Thread 0 is inside, and thread 1 spins.
contended : (s : Spins) × Reach s × (s.pc 0 ≡ inside) × (s.pc 1 ≡ spinning)
unfolding cas_new ℕ_discrete
contended =
    (_, later (later (later start (begin_ 0 refl)) (begin_ 1 refl)) (taken 0 refl refl), refl, refl)

mutual_exclusion_example : ◌≡◌ {A = ℕ} 0 0
mutual_exclusion_example = mutual_exclusion contended.1 0 0 contended.2 contended.2

-- A thread that was created, then ran into its callback, which renamed it, and whose constructor then
-- returned.
started : (s : Starting) × Started false 42 7 (codes "io") 9 s × (s.caller ≡ returned)
unfolding create run_step rename
started = (
  _,
  next
      (next
        (next (next (next (next (next (next (next created runs) runs) runs) runs) runs) runs) runs)
        (renames (codes "worker") refl))
      (waits refl refl),
  refl,
)

returned_started_example :
    (6 ≤ rank started.0.runner)
    × (started.0.thread.id ≡ some 42)
    × (started.0.system_name ≡ c_str (take 15 (thread_name (codes "io"))))
    × (started.0.thread.cb ≡ none)
    × (started.0.cb ≡ some 7)
returned_started_example = returned_started started.1 started.2

called_once_example : started.0.called ≡ (if ltb 6 (rank started.0.runner) then 7 ∷ [] else [])
called_once_example = called_once started.1

abbrev worker : Thread
worker = record { id = some 42; thread = 9; cb = none; name = codes "io"; semaphore = 0 }

lifetime_reaped_example : lifetime worker (35 ∷ 0 ∷ 0 ∷ []) ≡ pthread_join 9 ∷ []
unfolding reaped_by any_zero
lifetime_reaped_example = lifetime_reaped worker (35 ∷ 0 ∷ 0 ∷ []) cc

lifetime_run : lifetime worker (35 ∷ 0 ∷ 0 ∷ []) ≡ pthread_join 9 ∷ []
unfolding lifetime join destroy
lifetime_run = refl
