-- ===== src/Thread/Scope.antt =====
-- What a scoped lock does to its mutex over its whole life (src/thread.h).
use cool.Base.{true, false, List, [], ◌∷◌, Option, some, ◌≡◌, refl, ap, inl, inr, ◌⊎◌}
use cool.Thread.Locks.{
  Lockable, RwLockable, ScopedLock, Use, use_lock, use_unlock, acquire, release, construct,
  destruct, use_scope, scope, locked_scope, read_scope, write_scope,
}

module _ {S : Type 0} (take : S → Option S) (give : S → S) (s t : S) (taken : take s ≡ some t)
    (given : give t ≡ s) where
  -- Locked on `t`, or not locked on `s`.
  Held : ScopedLock S → Type 0
  Held l = (l ≡ record { mutex = t; locked = true }) ⊎ (l ≡ record { mutex = s; locked = false })

  Held-acquire :
      (l : ScopedLock S) → Held l → acquire take l ≡ some (record { mutex = t; locked = true })
  unfolding acquire Held
  Held-acquire l (inl e) = rw e refl
  Held-acquire l (inr e) = rw (e, taken) refl

  Held-release : (l : ScopedLock S) → Held l → release give l ≡ record { mutex = s; locked = false }
  unfolding release Held
  Held-release l (inl e) = rw (e, given) refl
  Held-release l (inr e) = rw e refl

  locked-Held : {l : ScopedLock S} → l ≡ record { mutex = t; locked = true } → Held l
  unfolding Held
  locked-Held e = inl e

  free-Held : {l : ScopedLock S} → l ≡ record { mutex = s; locked = false } → Held l
  unfolding Held
  free-Held e = inr e

  Held-use_scope :
      (us : List Use) (l : ScopedLock S)
      → Held l
      → (l' : ScopedLock S) × (use_scope take give us l ≡ some l') × Held l'
  unfolding use_scope
  Held-use_scope [] l h = (l, refl, h)
  Held-use_scope (use_lock ∷ us) l h =
      rw (Held-acquire l h) (Held-use_scope us _ (locked-Held refl))
  Held-use_scope (use_unlock ∷ us) l h = Held-use_scope us _ (free-Held (Held-release l h))

  Held-destruct : (l : ScopedLock S) → Held l → destruct give l ≡ s
  unfolding destruct
  Held-destruct l h = ap (λ x. x.mutex) (Held-release l h)

  pub scope_restores : (us : List Use) → scope take give us s ≡ some s
  unfolding scope construct acquire
  scope_restores us =
      let (l, run, held) = Held-use_scope us _ (locked-Held refl) in
      rw (taken, run) (ap some (Held-destruct l held))

-- A scoped lock of any of the three kinds leaves the mutex as it was before, whatever its code calls
-- of lock and unlock of the scoped lock in between, once the constructor's call of the mutex returns.
pub locked_scope_restores :
    {S : Type 0} (m : Lockable S) (rw_m : RwLockable S) (us : List Use) (s t u v : S)
    → m.lock s ≡ some t
    → rw_m.rdlock s ≡ some u
    → rw_m.wrlock s ≡ some v
    → (locked_scope m us s ≡ some s)
      × (read_scope rw_m us s ≡ some s)
      × (write_scope rw_m us s ≡ some s)
unfolding locked_scope read_scope write_scope
locked_scope_restores m rw_m us s t u v l r w = (
  scope_restores m.lock m.unlock s t l (m.unlock_lock s t l) us,
  scope_restores rw_m.rdlock rw_m.unlock s u r (rw_m.unlock_rdlock s u r) us,
  scope_restores rw_m.wrlock rw_m.unlock s v w (rw_m.unlock_wrlock s v w) us,
)
