-- ===== src/Thread/Locks.antt =====
-- src/thread.h: the scoped locks and the lock classes. What a mutex is, is the argument: a state, and
-- the calls of it. A call that does not return in a state is `none`.
use cool.Base.{Bool, true, false, List, [], ◌∷◌, Option, none, some, if◌then◌else◌, ◌≡◌}

abbrev pub then_do : {A B : Type 0} → Option A → (A → Option B) → Option B
then_do none f = none
then_do (some a) f = f a

-- A mutex and what its calls promise: after unlock it is as it was before lock.
pub record Lockable (S : Type 0) : Type 0 where
  pub lock : S → Option S
  pub unlock : S → S
  pub unlock_lock : (s t : S) → lock s ≡ some t → unlock t ≡ s

pub record RwLockable (S : Type 0) : Type 0 where
  pub rdlock : S → Option S
  pub wrlock : S → Option S
  pub unlock : S → S
  pub unlock_rdlock : (s t : S) → rdlock s ≡ some t → unlock t ≡ s
  pub unlock_wrlock : (s t : S) → wrlock s ≡ some t → unlock t ≡ s

-- m_mutex, the state of the mutex that it refers to, and m_locked.
pub record ScopedLock (S : Type 0) : Type 0 where
  pub mutex : S
  pub locked : Bool

-- What the code inside the scope may call.
pub data Use : Type 0 where
  use_lock use_unlock : Use

module _ {S : Type 0} where
  unfoldable pub acquire : (S → Option S) → ScopedLock S → Option (ScopedLock S)
  acquire take l =
      if l.locked
      then some l
      else then_do (take l.mutex) (λ s. some (record { mutex = s; locked = true }))

  unfoldable pub release : (S → S) → ScopedLock S → ScopedLock S
  release give l = if l.locked then record { mutex = give l.mutex; locked = false } else l

  -- The constructor.
  unfoldable pub construct : (S → Option S) → S → Option (ScopedLock S)
  construct take s = acquire take (record { mutex = s; locked = false })

  -- The destructor: the state in which it leaves the mutex.
  unfoldable pub destruct : (S → S) → ScopedLock S → S
  destruct give l = (release give l).mutex

  unfoldable pub use_scope :
      (S → Option S) → (S → S) → List Use → ScopedLock S → Option (ScopedLock S)
  use_scope take give [] l = some l
  use_scope take give (use_lock ∷ us) l = then_do (acquire take l) (use_scope take give us)
  use_scope take give (use_unlock ∷ us) l = use_scope take give us (release give l)

  -- A whole scope: the constructor, the calls inside, the destructor.
  unfoldable pub scope : (S → Option S) → (S → S) → List Use → S → Option S
  scope take give us s =
      then_do (construct take s)
        (λ l. then_do (use_scope take give us l) (λ l'. some (destruct give l')))

  -- ScopedLockImpl, ReadScopedLockImpl and WriteScopedLockImpl.
  unfoldable pub locked_scope : Lockable S → List Use → S → Option S
  locked_scope m = scope m.lock m.unlock

  unfoldable pub read_scope : RwLockable S → List Use → S → Option S
  read_scope m = scope m.rdlock m.unlock

  unfoldable pub write_scope : RwLockable S → List Use → S → Option S
  write_scope m = scope m.wrlock m.unlock

-- atomic_flag_test_and_set: the new flag, and the old one.
abbrev pub test_and_set : Bool → Bool × Bool
test_and_set flag = (true, flag)

-- CASLock: the constructor clears the flag; lock spins while it was set.
unfoldable pub cas_new : Bool
cas_new = false

unfoldable pub cas_lock : Bool → Option Bool
cas_lock flag = let (flag', old) = test_and_set flag in if old then none else some flag'

unfoldable pub cas_unlock : Bool → Bool
cas_unlock flag = false

-- NullMutex and NullRWMutex.
unfoldable pub null_lock : Unit {0} → Option (Unit {0})
null_lock u = some u

unfoldable pub null_unlock : Unit {0} → Unit {0}
null_unlock u = u
