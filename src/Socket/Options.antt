-- ===== src/Socket/Options.antt =====
-- src/socket.cpp: how Sockets are made, their timeouts through the hooked setsockopt, their options,
-- and their print. `none` is -1, and false the answer of a call of the system that fails; the seconds
-- of a timeout are below 2 ^ 31, since the cast to int changes others.
use cool.Base.{
  ℕ, ◌*◌, ◌/◌, ◌%◌, ◌^◌, ◌<◌, ◌≡◌, refl, ap, ◌∙◌, ◌||◌, Bool, true, not, List, [], ◌∷◌, ◌++◌,
  Option, none, some, ◌==◌, if◌then◌else◌, arith, get_elem?, get_elem?-set_self,
}
use cool.Base.Text.{Text, codes, decimal}
use cool.Fd
use cool.Fd.{FdManager, FdCtx, so_rcvtimeo, set_timeout, get_timeout}
use cool.Hook.{World, context_of}
use cool.Hook.Options.{setsockopt, timeval_ms, put_context}
use cool.Hook.Nonblock.{in_table}
use cool.Socket.{Socket, new_socket}

abbrev pub sock_stream : ℕ
sock_stream = 1

abbrev pub sock_dgram : ℕ
sock_dgram = 2

abbrev pub af_unix : ℕ
af_unix = 1

abbrev pub af_inet : ℕ
af_inet = 2

abbrev pub af_inet6 : ℕ
af_inet6 = 10

-- CreateTCP and CreateUDP for an address of the family `family`, and the sockets by family.
unfoldable pub create_tcp : ℕ → Socket
create_tcp family = new_socket family sock_stream 0

unfoldable pub create_udp : ℕ → Socket
create_udp family = new_socket family sock_dgram 0

unfoldable pub create_tcp_socket : Socket
create_tcp_socket = new_socket af_inet sock_stream 0

unfoldable pub create_udp_socket : Socket
create_udp_socket = new_socket af_inet sock_dgram 0

unfoldable pub create_tcp_socket6 : Socket
create_tcp_socket6 = new_socket af_inet6 sock_stream 0

unfoldable pub create_udp_socket6 : Socket
create_udp_socket6 = new_socket af_inet6 sock_dgram 0

unfoldable pub create_unix_tcp_socket : Socket
create_unix_tcp_socket = new_socket af_unix sock_stream 0

unfoldable pub create_unix_udp_socket : Socket
create_unix_udp_socket = new_socket af_unix sock_dgram 0

-- getOption and setOption, with the answer of the system.
unfoldable pub get_option : (Option ℕ → Option ℕ) → Socket → Option ℕ
get_option sys s = sys s.sock

abbrev so_sndtimeo : ℕ
so_sndtimeo = 21

-- setOption of a timeval; FdMgr knows no descriptor -1.
unfoldable pub set_timeval : World → Socket → ℕ → ℕ → ℕ → World
set_timeval w s optname sec usec = elim s.sock [
  | none ↦ w
  | some fd ↦ setsockopt w fd true optname sec usec
]

-- sendTimeout(v) and recvTimeout(v).
unfoldable pub set_send_timeout : World → Socket → ℕ → World
set_send_timeout w s v = set_timeval w s so_sndtimeo (v / 1000) (v % 1000 * 1000)

unfoldable pub set_recv_timeout : World → Socket → ℕ → World
set_recv_timeout w s v = set_timeval w s so_rcvtimeo (v / 1000) (v % 1000 * 1000)

abbrev pub context_at : World → Option ℕ → Option FdCtx
context_at w none = none
context_at w (some fd) = context_of w fd

abbrev pub timeout_in : ℕ → Option FdCtx → Option ℕ
timeout_in type none = none
timeout_in type (some c) = some (get_timeout c type)

-- sendTimeout() and recvTimeout().
unfoldable pub send_timeout : World → Socket → Option ℕ
send_timeout w s = timeout_in so_sndtimeo (context_at w s.sock)

unfoldable pub recv_timeout : World → Socket → Option ℕ
recv_timeout w s = timeout_in so_rcvtimeo (context_at w s.sock)

-- error(), with what getsockopt answers for SO_ERROR.
unfoldable pub error : (Option ℕ → Option ℕ) → Socket → Option ℕ
error sys s = get_option sys s

-- The options that initSock sets to 1, by level and name: SO_REUSEADDR, and TCP_NODELAY for a stream.
unfoldable pub init_sock : Socket → List (ℕ × ℕ)
init_sock s = (1, 2) ∷ (if s.type == sock_stream then (6, 1) ∷ [] else [])

abbrev print_fd : Option ℕ → Text
print_fd none = codes "-1"
print_fd (some fd) = decimal fd

abbrev print_name : (ℕ → Text) → Text → Option ℕ → Text
print_name text before none = []
print_name text before (some a) = before ++ text a

-- dump, with the texts of the addresses.
unfoldable pub dump : (ℕ → Text) → Socket → Text
dump text s =
    codes "[Socket sock: "
    ++ print_fd s.sock
    ++ codes ", isConnected: "
    ++ (if s.is_connected then codes "1" else codes "0")
    ++ codes ", family: "
    ++ decimal s.family
    ++ codes ", type: "
    ++ decimal s.type
    ++ codes ", protocol: "
    ++ decimal s.protocol
    ++ print_name text (codes ", localAddress: ") s.local_name
    ++ print_name text (codes ", remoteAddress ") s.remote_name
    ++ codes "]"

-- A timeout that fits an int of seconds comes out of the timeval as it was.
timeval_lem : (v : ℕ) → v < 1000 * 2 ^ 31 → timeval_ms (v / 1000) (v % 1000 * 1000) ≡ v
unfolding timeval_ms
timeval_lem v h = omega arith

at_lem : (m : FdManager) (fd : ℕ) (o : Option FdCtx) → get_elem? m fd ≡ some o → Fd.at m fd ≡ o
at_lem m fd o h = rw (Fd.at, h) refl

hooked_lem :
    (w : World) (f : FdCtx → World) (on known : Bool) (o : Option FdCtx) (c : FdCtx)
    → on ≡ true
    → known ≡ true
    → o ≡ some c
    → (if not on then w else (if known then elim o [ none ↦ w | some d ↦ f d ] else w)) ≡ f c
hooked_lem w f on known o c a b e = rw (a, b, e) refl

module _ (w : World) (s : Socket) (fd : ℕ) (c : FdCtx) (on : w.hook_enable ≡ true)
    (open_ : s.sock ≡ some fd) (known : get_elem? w.fds fd ≡ some (some c)) where
  written_context : (d : FdCtx) → context_of (put_context w fd d) fd ≡ some d
  written_context d =
      at_lem (put_context w fd d).fds fd (some d)
        (get_elem?-set_self w.fds fd (some d) (in_table w.fds fd (some c) known))

  setsockopt_written :
      (type v : ℕ)
      → v < 1000 * 2 ^ 31
      → (type == so_rcvtimeo) || (type == 21) ≡ true
      → set_timeval w s type (v / 1000) (v % 1000 * 1000) ≡ put_context w fd (set_timeout c type v)
  unfolding set_timeval setsockopt
  setsockopt_written type v h t =
      ap (λ o. elim o [ none ↦ w | some n ↦ setsockopt w n true type (v / 1000) (v % 1000 * 1000) ])
        open_
      ∙ hooked_lem w
          (λ d. put_context w fd (set_timeout d type (timeval_ms (v / 1000) (v % 1000 * 1000))))
          w.hook_enable ((type == so_rcvtimeo) || (type == 21)) (context_of w fd) c on t
          (at_lem w.fds fd (some c) known)
      ∙ ap (λ n. put_context w fd (set_timeout c type n)) (timeval_lem v h)

  read_back :
      (type v asked : ℕ)
      → v < 1000 * 2 ^ 31
      → (type == so_rcvtimeo) || (type == 21) ≡ true
      → timeout_in asked (context_at (set_timeval w s type (v / 1000) (v % 1000 * 1000)) s.sock)
        ≡ some (get_timeout (set_timeout c type v) asked)
  read_back type v asked h t =
      ap (λ x. timeout_in asked (context_at x s.sock)) (setsockopt_written type v h t)
      ∙ ap (λ x. timeout_in asked (context_at (put_context w fd (set_timeout c type v)) x)) open_
      ∙ ap (timeout_in asked) (written_context (set_timeout c type v))

-- With the hooks on and a descriptor that FdMgr knows, sendTimeout and recvTimeout answer the timeout
-- in milliseconds that was set last through the socket's options, if it has fewer than 2 ^ 31 seconds,
-- and setting one of the two leaves the other as it was.
pub timeouts_lem :
    (w : World) (s : Socket) (fd v : ℕ) (c : FdCtx)
    → w.hook_enable ≡ true
    → s.sock ≡ some fd
    → get_elem? w.fds fd ≡ some (some c)
    → v < 1000 * 2 ^ 31
    → (send_timeout (set_send_timeout w s v) s ≡ some v)
      × (recv_timeout (set_recv_timeout w s v) s ≡ some v)
      × (recv_timeout (set_send_timeout w s v) s ≡ some c.recv_timeout)
      × (send_timeout (set_recv_timeout w s v) s ≡ some c.send_timeout)
unfolding send_timeout recv_timeout set_send_timeout set_recv_timeout get_timeout set_timeout
timeouts_lem w s fd v c on open_ known h = (
  read_back w s fd c on open_ known 21 v 21 h refl,
  read_back w s fd c on open_ known 20 v 20 h refl,
  read_back w s fd c on open_ known 21 v 20 h refl,
  read_back w s fd c on open_ known 20 v 21 h refl,
)
