-- ===== src/Fd.antt =====
-- src/fd_manager.h and src/fd_manager.cpp: what the hooks know of each file descriptor. The kernel's
-- answers to fstat, and its O_NONBLOCK flags, are the record `Kernel`. Descriptors are not negative.
pub mod Table
use cool.Base.{
  ℕ, ◌^◌, ◌-◌, Bool, true, false, not, List, [], ◌∷◌, Option, none, some, length, get_elem?, set,
  replicate, leb, ◌==◌, ◌||◌, if◌then◌else◌, is_some,
}

pub record Kernel : Type 0 where
  -- `none` is an fstat that fails, `some s` says whether the descriptor is a socket.
  pub stat : ℕ → Option Bool
  pub nonblock : ℕ → Bool

pub record FdCtx : Type 0 where
  pub is_init : Bool
  pub is_socket : Bool
  pub is_closed : Bool
  pub sys_nonblock : Bool
  pub user_nonblock : Bool
  pub fd : ℕ
  pub recv_timeout : ℕ
  pub send_timeout : ℕ

-- (uint64_t)-1
abbrev pub no_timeout : ℕ
no_timeout = 2 ^ 64 - 1

abbrev pub so_rcvtimeo : ℕ
so_rcvtimeo = 20

abbrev is_sock : Option Bool → Bool
is_sock none = false
is_sock (some s) = s

-- FdCtx::init; fcntl sets O_NONBLOCK on a socket that lacks it.
unfoldable pub init : Kernel → FdCtx → Kernel × FdCtx × Bool
init k c =
    if c.is_init
    then (k, c, true)
    else (let sock = is_sock (k.stat c.fd) in
        (
          (if sock
              then record k { nonblock = λ n. if n == c.fd then true else k.nonblock n }
              else k),
          record c {
            is_init = is_some (k.stat c.fd);
            is_socket = sock;
            is_closed = false;
            sys_nonblock = sock;
            user_nonblock = false;
            recv_timeout = no_timeout;
            send_timeout = no_timeout;
          },
          is_some (k.stat c.fd),
        ))

-- The constructor, which calls init.
unfoldable pub new_ctx : Kernel → ℕ → Kernel × FdCtx
new_ctx k fd =
    let fresh : FdCtx = record {
      is_init = false;
      is_socket = false;
      is_closed = false;
      sys_nonblock = false;
      user_nonblock = false;
      fd = fd;
      recv_timeout = no_timeout;
      send_timeout = no_timeout;
    } in
    let (k', c, done) = init k fresh in (k', c)

unfoldable pub set_timeout : FdCtx → ℕ → ℕ → FdCtx
set_timeout c type v =
    if type == so_rcvtimeo then record c { recv_timeout = v } else record c { send_timeout = v }

unfoldable pub get_timeout : FdCtx → ℕ → ℕ
get_timeout c type = if type == so_rcvtimeo then c.recv_timeout else c.send_timeout

-- m_datas; a null pointer is `none`.
abbrev pub FdManager : Type 0
FdManager = List (Option FdCtx)

unfoldable pub new_manager : FdManager
new_manager = replicate 64 none

-- A store into the vector; `none` is a store behind its end.
abbrev pub store : FdManager → ℕ → Option FdCtx → Option FdManager
store m fd c = if leb (length m) fd then none else some (set m fd c)

abbrev pub at : FdManager → ℕ → Option FdCtx
at m fd = elim (get_elem? m fd) [ none ↦ none | some c ↦ c ]

-- The part of get behind the read lock: a new context, stored under the write lock.
unfoldable pub create : Kernel → FdManager → ℕ → Option (Kernel × FdManager × Option FdCtx)
create k m fd =
    let (k', c) = new_ctx k fd in
    elim (store m fd (some c)) [ none ↦ none | some m' ↦ some (k', m', some c) ]

-- FdManager::get(fd, auto_create).
unfoldable pub get : Kernel → FdManager → ℕ → Bool → Option (Kernel × FdManager × Option FdCtx)
get k m fd auto_create =
    if leb (length m) fd
    then (if not auto_create then some (k, m, none) else create k m fd)
    else (if is_some (at m fd) || not auto_create then some (k, m, at m fd) else create k m fd)

unfoldable pub del : FdManager → ℕ → FdManager
del m fd = if leb (length m) fd then m else set m fd none
