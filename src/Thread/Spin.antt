-- ===== src/Thread/Spin.antt =====
-- CASLock under many threads, each of which takes it with a ScopedLockImpl (src/thread.h): one
-- exchange or one clear of the flag at a time, in any order.
use cool.Base.{Bool-cases, ℕ, Bool, true, false, ◌≡◌, ◌≢◌, ◌⊎◌, inl, inr, arith}
use mathlib.Core.Logic.{ite}
use native.Mathlib.Decide.{ℕ_discrete}
use cool.Thread.Locks.{test_and_set, cas_new, cas_unlock}

-- A thread outside of a scope, in the loop of CASLock::lock, and behind it, with m_locked set.
pub data Pc : Type 0 where
  outside spinning inside : Pc

pub record Spins : Type 0 where
  pub flag : Bool
  pub pc : ℕ → Pc

abbrev pub at : ℕ → Pc → (ℕ → Pc) → ℕ → Pc
at i p f j = ite (ℕ_discrete i j) p (f j)

-- A scope that begins, one round of the loop of CASLock::lock, and CASLock::unlock.
pub data Step (s : Spins) : Spins → Type 0 where
  begin_ : (i : ℕ) → s.pc i ≡ outside → Step s (record s { pc = at i spinning s.pc })
  again :
      (i : ℕ)
      → s.pc i ≡ spinning
      → (test_and_set s.flag).1 ≡ true
      → Step s (record s { flag = (test_and_set s.flag).0 })
  taken :
      (i : ℕ)
      → s.pc i ≡ spinning
      → (test_and_set s.flag).1 ≡ false
      → Step s (record { flag = (test_and_set s.flag).0; pc = at i inside s.pc })
  leave :
      (i : ℕ)
      → s.pc i ≡ inside
      → Step s (record { flag = cas_unlock s.flag; pc = at i outside s.pc })

abbrev pub quiet : Spins
quiet = record { flag = cas_new; pc = λ _. outside }

pub data Reach : Spins → Type 0 where
  start : Reach quiet
  later : {s t : Spins} → Reach s → Step s t → Reach t

-- The flag is set exactly while a thread is inside, and only one is.
pub record Inv (s : Spins) : Type 0 where
  pub alone : (i j : ℕ) → s.pc i ≡ inside → s.pc j ≡ inside → i ≡ j
  pub clear : s.flag ≡ false → (i : ℕ) → s.pc i ≢ inside
  pub held : s.flag ≡ true → (i : ℕ) × (s.pc i ≡ inside)

Inv-quiet : Inv quiet
unfolding cas_new
Inv-quiet = record { alone = λ i j p q. absurd cc; clear = λ _ i q. cc; held = λ q. absurd cc }

at_self : (i : ℕ) (p : Pc) (f : ℕ → Pc) → at i p f i ≡ p
at_self i p f = ground arith

Inv-Step : {s t : Spins} → Step s t → Inv s → Inv t
unfolding cas_unlock
Inv-Step {s} (begin_ i e) v = record {
  alone = λ j k p q. v.alone j k (ground arith) (ground arith);
  clear = λ q j p. v.clear q j (ground arith);
  held = λ q. let (j, p) = v.held q in (j, ground arith);
}
Inv-Step {s} (again i e f) v = record {
  alone = v.alone;
  clear = λ q. absurd cc;
  held = λ q. v.held f;
}
Inv-Step {s} (taken i e f) v = record {
  alone = λ j k p q. ground (arith, v.clear f j, v.clear f k);
  clear = λ q. absurd cc;
  held = λ q. (i, at_self i inside s.pc);
}
Inv-Step {s} (leave i e) v = record {
  alone = λ j k p q. v.alone j k (ground arith) (ground arith);
  clear = λ q j p. ground (arith, v.alone i j e);
  held = λ q. absurd cc;
}

Inv-reach : {s : Spins} → Reach s → Inv s
Inv-reach start = Inv-quiet
Inv-reach (later r st) = Inv-Step st (Inv-reach r)

-- Two threads are never inside scopes of one CASLock at the same time, however their exchanges and
-- clears interleave.
pub mutual_exclusion : {s : Spins} → Reach s → (i j : ℕ) → s.pc i ≡ inside → s.pc j ≡ inside → i ≡ j
mutual_exclusion r = (Inv-reach r).alone

-- A thread that spins on a CASLock either has another thread inside to wait for, or its next exchange
-- takes the lock.
pub spinning_progress :
    {s : Spins}
    → Reach s
    → (i : ℕ) → s.pc i ≡ spinning
    → ((j : ℕ) × (s.pc j ≡ inside)) ⊎ ((t : Spins) × Step s t × (t.pc i ≡ inside))
spinning_progress {s} r i e = elim (Bool-cases s.flag) [
  | inl f ↦ inl ((Inv-reach r).held f)
  | inr f ↦ inr (_, taken i e f, at_self i inside s.pc)
]
