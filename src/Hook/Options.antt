-- ===== src/Hook/Options.antt =====
-- fcntl, ioctl and setsockopt of src/hook.cpp on the options the hooks keep for themselves.
use cool.Base.{
  ℕ, ◌+◌, ◌*◌, ◌/◌, ◌%◌, ◌^◌, Bool, not, ◌&&◌, ◌||◌, none, some, set, ◌==◌, if◌then◌else◌,
}
use cool.Fd.{FdCtx, set_timeout, so_rcvtimeo}
use cool.Hook.{World, context_of}

-- A write through the shared pointer that the table holds.
abbrev pub put_context : World → ℕ → FdCtx → World
put_context w fd c = record w { fds = set w.fds fd (some c) }

abbrev pub set_nonblock : World → ℕ → Bool → World
set_nonblock w fd b = record w {
  kernel = record w.kernel { nonblock = λ n. if n == fd then b else w.kernel.nonblock n };
}

-- fcntl(fd, F_SETFL, arg), of whose flags O_NONBLOCK is followed: fcntl_f sets what it is told.
unfoldable pub set_flags : World → ℕ → Bool → World
set_flags w fd nonblock = elim (context_of w fd) [
  | none ↦ set_nonblock w fd nonblock
  | some c ↦
      if c.is_closed
      then set_nonblock w fd nonblock
      else set_nonblock (put_context w fd (record c { user_nonblock = nonblock })) fd c.sys_nonblock
]

-- fcntl(fd, F_GETFL).
unfoldable pub get_flags : World → ℕ → Bool
get_flags w fd = elim (context_of w fd) [
  | none ↦ w.kernel.nonblock fd
  | some c ↦ if c.is_closed || not c.is_socket then w.kernel.nonblock fd else c.user_nonblock
]

-- ioctl(fd, FIONBIO, &arg), which always passes the user's value on.
unfoldable pub ioctl_fionbio : World → ℕ → Bool → World
ioctl_fionbio w fd nonblock = elim (context_of w fd) [
  | none ↦ set_nonblock w fd nonblock
  | some c ↦
      if c.is_closed || not c.is_socket
      then set_nonblock w fd nonblock
      else set_nonblock (put_context w fd (record c { user_nonblock = nonblock })) fd nonblock
]

-- A timeval that is not negative, in milliseconds.
unfoldable pub timeval_ms : ℕ → ℕ → ℕ
timeval_ms sec usec = (sec * 1000 + usec / 1000) % 2 ^ 64

-- setsockopt, before its call of setsockopt_f.
unfoldable pub setsockopt : World → ℕ → Bool → ℕ → ℕ → ℕ → World
setsockopt w fd sol_socket optname sec usec =
    if not w.hook_enable
    then w
    else (if sol_socket && (optname == so_rcvtimeo || optname == 21)
        then elim (context_of w fd) [
          | none ↦ w
          | some c ↦ put_context w fd (set_timeout c optname (timeval_ms sec usec))
        ]
        else w)
