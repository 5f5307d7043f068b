-- ===== src/Server.antt =====
-- src/tcp_server.h and src/tcp_server.cpp: binding, the accept loops, start and stop. The answers of
-- the system to the sockets are arguments; a Socket that its last pointer leaves is closed by its
-- destructor and kept in `released`. The tasks of the accept worker are the accept loops, by the next
-- thing that each does, and the closing tasks of stop.
pub mod Bind
pub mod Accept
mod Runs
pub mod Http
use cool.Base.{
  ℕ, zero, suc, ◌+◌, Bool, true, false, not, List, [], ◌∷◌, ◌++◌, Option, none, some, if◌then◌else◌,
  map, get_elem?, set,
}
use cool.Socket.{Socket, new_socket, bind, listen, close}

-- Where an accept loop stands: at the test of m_is_stop, in accept, or behind its end.
pub data Loop : Type 0 where
  testing accepting finished : Loop

-- The client socket with the receive timeout that it was given.
pub record Client : Type 0 where
  pub socket : Socket
  pub recv_timeout : ℕ

pub record TcpServer : Type 0 where
  pub recv_timeout : ℕ
  pub is_stop : Bool
  pub is_start : Bool
  pub socks : List Socket
  -- The tasks of m_accept_worker, and the handle_client tasks of m_worker.
  pub loops : List Loop
  pub closings : ℕ
  pub clients : List Client
  pub released : List Socket

-- TcpServer(), with the configured timeout.
unfoldable pub new_server : ℕ → TcpServer
new_server timeout = record {
  recv_timeout = timeout;
  is_stop = false;
  is_start = false;
  socks = [];
  loops = [];
  closings = 0;
  clients = [];
  released = [];
}

-- An address to bind, with the answers of socket(), bind, getsockname and listen.
pub record Attempt : Type 0 where
  pub addr : ℕ
  pub family : ℕ
  pub fd : Option ℕ
  pub bound : Bool
  pub name : Option ℕ
  pub listens : Bool

abbrev pub stream_type : ℕ
stream_type = 1

-- ~Socket.
abbrev pub destroyed : Socket → Socket
destroyed s = (close s).0

-- One round of the loop over the addresses: the socket, and whether it is kept.
unfoldable pub bind_one : Attempt → Socket × Bool
bind_one a =
    let r = bind (new_socket a.family stream_type 0) a.family a.fd a.bound a.name in
    if r.1 then (r.0, listen r.0 (λ _. a.listens)) else (r.0, false)

unfoldable pub bind_loop : TcpServer → List Attempt → List ℕ → TcpServer × List ℕ
bind_loop s [] fails = (s, fails)
bind_loop s (a ∷ attempts) fails =
    let r = bind_one a in
    if r.1
    then bind_loop (record s { socks = s.socks ++ r.0 ∷ [] }) attempts fails
    else bind_loop (record s { released = s.released ++ destroyed r.0 ∷ [] }) attempts
        (fails ++ a.addr ∷ [])

-- m_socks.clear().
unfoldable pub clear_socks : TcpServer → TcpServer
clear_socks s = record s { socks = []; released = s.released ++ map destroyed s.socks }

abbrev pub bind_end : TcpServer × List ℕ → TcpServer × List ℕ × Bool
bind_end (s, []) = (s, [], true)
bind_end (s, a ∷ fails) = (clear_socks s, a ∷ fails, false)

-- bind(addrs, fails).
unfoldable pub bind_all : TcpServer → List Attempt → List ℕ → TcpServer × List ℕ × Bool
bind_all s attempts fails = bind_end (bind_loop s attempts fails)

-- bind(addr).
unfoldable pub bind_addr : TcpServer → Attempt → TcpServer × Bool
bind_addr s a = let (s', fails, ok) = bind_all s (a ∷ []) [] in (s', ok)

-- start(), which always answers true.
unfoldable pub start : TcpServer → TcpServer
start s =
    if s.is_start
    then s
    else record s { is_start = true; loops = s.loops ++ map (λ _. testing) s.socks }

-- One step of the accept loop in `l`, with what accept answers: the next place, and the server.
unfoldable pub loop_step : TcpServer → Loop → Option Socket → Loop × TcpServer
loop_step s testing answer = (if s.is_stop then finished else accepting, s)
loop_step s accepting none = (testing, s)
loop_step s accepting (some c) = (
  testing,
  record s { clients = s.clients ++ record { socket = c; recv_timeout = s.recv_timeout } ∷ [] },
)
loop_step s finished answer = (finished, s)

-- A step of the accept loop of index `i`.
unfoldable pub run_loop : TcpServer → ℕ → Option Socket → TcpServer
run_loop s i answer = elim (get_elem? s.loops i) [
  | none ↦ s
  | some l ↦ let r = loop_step s l answer in record r.1 { loops = set r.1.loops i r.0 }
]

-- stop().
unfoldable pub stop : TcpServer → TcpServer
stop s = if s.is_stop then s else record s { is_stop = true; closings = s.closings + 1 }

-- The task that stop schedules; cancelAll changes no socket.
unfoldable pub run_closing : TcpServer → TcpServer
run_closing s = elim s.closings [
  | zero ↦ s
  | suc n ↦ record s {
    closings = n;
    socks = [];
    released = s.released ++ map (λ k. destroyed (close k).0) s.socks;
  }
]

-- The destructor.
unfoldable pub destroy : TcpServer → List Socket
destroy s = s.released ++ map (λ k. destroyed (close k).0) s.socks
