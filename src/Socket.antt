-- ===== src/Socket.antt =====
-- src/socket.h and src/socket.cpp: the life of a Socket. The answers of the system calls are
-- arguments: a descriptor of socket(), whether bind, connect and listen succeed, and the names of
-- getsockname and getpeername, which are numbers here. m_sock is `none` for -1.
pub mod Arrays
pub mod Scatter
pub mod Received
pub mod Balance
pub mod Options
mod Runs
use cool.Base.{
  ℕ, ◌+◌, Bool, true, false, not, ◌&&◌, ◌||◌, Option, none, some, ◌==◌, if◌then◌else◌, is_some,
}
use cool.Fd.{FdCtx}

pub record Socket : Type 0 where
  pub sock : Option ℕ
  pub family : ℕ
  pub type : ℕ
  pub protocol : ℕ
  pub is_connected : Bool
  pub local_name : Option ℕ
  pub remote_name : Option ℕ
  -- How many descriptors it has taken from the system, and closed.
  pub opened : ℕ
  pub closed : ℕ

-- Socket(family, type, protocol).
unfoldable pub new_socket : ℕ → ℕ → ℕ → Socket
new_socket family type protocol = record {
  sock = none;
  family = family;
  type = type;
  protocol = protocol;
  is_connected = false;
  local_name = none;
  remote_name = none;
  opened = 0;
  closed = 0;
}

abbrev pub is_valid : Socket → Bool
is_valid s = is_some s.sock

-- newSock; the options of initSock change nothing here.
unfoldable pub new_sock : Socket → Option ℕ → Socket
new_sock s none = record s { sock = none }
new_sock s (some fd) = record s { sock = some fd; opened = s.opened + 1 }

-- `if (!isValid()) newSock()`.
unfoldable pub ensure_sock : Socket → Option ℕ → Socket
ensure_sock s answer = if is_valid s then s else new_sock s answer

-- localAddress and remoteAddress keep the first name that the system answers.
unfoldable pub local_address : Socket → Option ℕ → Socket
local_address s name = if is_some s.local_name then s else record s { local_name = name }

unfoldable pub remote_address : Socket → Option ℕ → Socket
remote_address s name = if is_some s.remote_name then s else record s { remote_name = name }

abbrev is_open_socket : Option FdCtx → Bool
is_open_socket none = false
is_open_socket (some c) = c.is_socket && not c.is_closed

-- init(sock), with the context that FdMgr has of the descriptor.
unfoldable pub init : Socket → ℕ → Option FdCtx → Option ℕ → Option ℕ → Socket × Bool
init s fd ctx local_ remote =
    if is_open_socket ctx
    then (
      remote_address
          (local_address (record s { sock = some fd; is_connected = true; opened = s.opened + 1 })
            local_)
          remote,
      true,
    )
    else (s, false)

-- accept(): a new Socket of the same kind; `none` is a null pointer.
unfoldable pub accept : Socket → Option ℕ → Option FdCtx → Option ℕ → Option ℕ → Option Socket
accept s none ctx local_ remote = none
accept s (some fd) ctx local_ remote =
    let (made, ok) = init (new_socket s.family s.type s.protocol) fd ctx local_ remote in
    if ok then some made else none

-- bind(addr), for an address of the family `family`.
unfoldable pub bind : Socket → ℕ → Option ℕ → Bool → Option ℕ → Socket × Bool
bind s family answer bound local_ =
    let s1 = ensure_sock s answer in
    if not (is_valid s1) || not (family == s1.family)
    then (s1, false)
    else (if not bound then (s1, false) else (local_address s1 local_, true))

-- close(), on m_sock.
abbrev pub close_sock : Socket → Option ℕ → Socket × Bool
close_sock s none =
    if not s.is_connected then (s, true) else (record s { is_connected = true }, false)
close_sock s (some fd) =
    (record s { sock = none; is_connected = true; closed = s.closed + 1 }, false)

unfoldable pub close : Socket → Socket × Bool
close s = close_sock s s.sock

-- connect(addr, timeout_ms); the two calls of the system differ in the timeout.
unfoldable pub connect : Socket → ℕ → Option ℕ → Bool → Option ℕ → Option ℕ → Socket × Bool
connect s family answer ok local_ remote =
    let s1 = ensure_sock s answer in
    if not (is_valid s1) || not (family == s1.family)
    then (s1, false)
    else (if not ok then ((close s1).0, false) else (
      local_address (remote_address (record s1 { is_connected = true }) remote) local_,
      true,
    ))

-- listen(backlog), which goes on without a descriptor; `listens` is the system's listen on m_sock.
unfoldable pub listen : Socket → (Option ℕ → Bool) → Bool
listen s listens = listens s.sock

-- send, recv and their like on m_sock, with the answer `none` for -1.
unfoldable pub transfer : Socket → (Option ℕ → Option ℕ) → Option ℕ
transfer s sys = if s.is_connected then sys s.sock else none

-- SocketStream(sock, owner) of src/socket_stream.cpp: read and write of a stream that has a socket.
unfoldable pub stream_transfer : Option Socket → (Option ℕ → Option ℕ) → Option ℕ
stream_transfer none sys = none
stream_transfer (some s) sys = if s.is_connected then transfer s sys else none

-- close() and the destructor, which closes also a socket that it does not own.
unfoldable pub stream_close : Option Socket → Option Socket
stream_close none = none
stream_close (some s) = some (close s).0
