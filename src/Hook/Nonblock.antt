-- ===== src/Hook/Nonblock.antt =====
-- The two non-blocking flags of a socket, the kernel's and the user's, over fcntl and ioctl of
-- src/hook.cpp.
use cool.Base.{
  ℕ, zero, suc, ◌<◌, ◌≡◌, refl, Bool, true, false, List, [], ◌∷◌, Option, some, arith, ◌==◌, length,
  get_elem?, get_elem?-set_self,
}
use cool.Fd.{FdCtx}
use cool.Hook.{World}
use cool.Hook.Options.{set_flags, get_flags, ioctl_fionbio, put_context, set_nonblock}

-- The descriptor is an open socket that FdCtx::init made non-blocking.
abbrev pub OpenSocket : World → ℕ → Type 0
OpenSocket w fd =
    (c : FdCtx) × (get_elem? w.fds fd ≡ some (some c))
    × (c.is_closed ≡ false)
    × (c.is_socket ≡ true)
    × (c.sys_nonblock ≡ true)

pub in_table :
    (m : List (Option FdCtx)) (fd : ℕ) (o : Option FdCtx) → get_elem? m fd ≡ some o → fd < length m
in_table [] fd o h = absurd (cc)
in_table (x ∷ m) zero o h = omega arith
in_table (x ∷ m) (suc fd) o h = omega (arith, in_table m fd o h)

-- On an open socket of the hooks, F_GETFL answers the O_NONBLOCK that F_SETFL was given while the
-- kernel's socket stays non-blocking. FIONBIO is read back too, but the kernel is told the user's
-- value: a socket set to block blocks its thread.
pub set_get_flags_lem :
    (w : World) (fd : ℕ) (nonblock : Bool)
    → OpenSocket w fd
    → (get_flags (set_flags w fd nonblock) fd ≡ nonblock)
      × ((set_flags w fd nonblock).kernel.nonblock fd ≡ true)
      × (get_flags (ioctl_fionbio w fd nonblock) fd ≡ nonblock)
      × ((ioctl_fionbio w fd nonblock).kernel.nonblock fd ≡ nonblock)
unfolding set_flags get_flags ioctl_fionbio
set_get_flags_lem w fd nonblock (c, h, i, j, k) =
    let d = record c { user_nonblock = nonblock } in
    let q = get_elem?-set_self w.fds fd (some d) (in_table w.fds fd (some c) h) in
    let r : (fd == fd) ≡ true = ground arith in
    let f : set_flags w fd nonblock ≡ set_nonblock (put_context w fd d) fd true =
      rw (set_flags, h, i, k) refl in
    let g : ioctl_fionbio w fd nonblock ≡ set_nonblock (put_context w fd d) fd nonblock =
      rw (ioctl_fionbio, h, i, j) refl in
    (
      rw f (rw (get_flags, q, i, j) refl),
      rw f (rw r refl),
      rw g (rw (get_flags, q, i, j) refl),
      rw g (rw r refl),
    )
