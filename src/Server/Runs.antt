-- ===== src/Server/Runs.antt =====
-- Tests of the servers at concrete states, and the witnesses.
use cool.Base.{
  ℕ, ◌≤◌, true, false, List, [], ◌∷◌, ◌++◌, none, some, ◌≡◌, refl, if◌then◌else◌, length, ◌==◌,
}
use cool.Base.Text.{codes}
use cool.Socket.{new_socket, bind, listen, ensure_sock, new_sock, local_address}
use cool.Http.{get_as, find}
use cool.Servlet
use cool.Http.Message.{new_request, HttpRequest, HttpResponse}
use cool.Http.Parser.{
  Machine, RequestCall, execute, is_finished, has_error, content_length, run_calls, new_parser,
}
use cool.Http.Session.{Read, got, recv_request, receive, take_body}
use cool.Server.{TcpServer, Attempt, accepting, new_server, bind_one, bind_all, loop_step, run_loop}
use cool.Server.Bind.{failures, bound_sockets, is_nil, NoLeak, bind_all_lem, bind_all-NoLeak}
use cool.Server.Accept.{handle, loops_on, run, clients_after_stop}
use cool.Server.Http.{new_http_server, respond, pending, reads_left}
use cool.Server.Http.Requests.{requests, next_requests}

-- The address 1 binds to the descriptor 5, and the address 2 is taken.
abbrev free_addr : Attempt
free_addr = record {
  addr = 1;
  family = 2;
  fd = some 5;
  bound = true;
  name = some 1;
  listens = true;
}

abbrev taken_addr : Attempt
taken_addr = record {
  addr = 2;
  family = 2;
  fd = some 6;
  bound = false;
  name = none;
  listens = true;
}

bind_all_lem_example :
    ((bind_all (new_server 7) (free_addr ∷ taken_addr ∷ []) []).1
      ≡ failures (free_addr ∷ taken_addr ∷ []))
    × ((bind_all (new_server 7) (free_addr ∷ taken_addr ∷ []) []).2
        ≡ is_nil (failures (free_addr ∷ taken_addr ∷ [])))
    × ((bind_all (new_server 7) (free_addr ∷ taken_addr ∷ []) []).0.socks ≡ (
        if is_nil (failures (free_addr ∷ taken_addr ∷ []))
        then bound_sockets (free_addr ∷ taken_addr ∷ [])
        else []))
unfolding new_server
bind_all_lem_example = bind_all_lem (new_server 7) (free_addr ∷ taken_addr ∷ []) []

taken_fails : failures (free_addr ∷ taken_addr ∷ []) ≡ 2 ∷ []
unfolding bind_one bind ensure_sock new_socket new_sock listen local_address
taken_fails = refl

bind_all-NoLeak_example : NoLeak (bind_all (new_server 7) (free_addr ∷ taken_addr ∷ []) []).0
unfolding new_server
bind_all-NoLeak_example = bind_all-NoLeak (new_server 7) (free_addr ∷ taken_addr ∷ []) [] (tt, tt)

-- Stopped while its loop is in accept.
abbrev stopping : TcpServer
stopping = record (new_server 7) { is_stop = true; is_start = true; loops = accepting ∷ [] }

clients_after_stop_example :
    length
      (run stopping (
        loops_on 0 (some (new_socket 2 1 0))
        ∷ loops_on 0 none
        ∷ loops_on 0 (some (new_socket 2 1 0))
        ∷ [])).clients
    ≤ 1
unfolding new_server
clients_after_stop_example =
    clients_after_stop stopping
      (loops_on 0 (some (new_socket 2 1 0))
        ∷ loops_on 0 none
        ∷ loops_on 0 (some (new_socket 2 1 0))
        ∷ [])
      refl

-- The bound is met: the client that comes after stop is still handed on.
late_client : length (run stopping (loops_on 0 (some (new_socket 2 1 0)) ∷ [])).clients ≡ 1
unfolding run handle run_loop new_server loop_step
late_client = refl

-- A machine that takes four bytes and is done, and a socket that takes all that it is handed.
abbrev four_machine : Machine ℕ RequestCall
four_machine = record {
  start = 0;
  run = λ s buffer. (1, 4, []);
  finish = λ s. s == 1;
  has_error = λ s. false;
}

abbrev take_whole : List ℕ → List ℕ → List ℕ × ℕ
take_whole s bs = (s ++ bs, length bs)

abbrev two_requests : List Read
two_requests = got (codes "GET ") ∷ got (codes "PUT ") ∷ []

abbrev answer : HttpRequest → HttpResponse
answer = respond (λ p u. false) (λ t. "/") (λ r. r) (new_http_server true)

requests_run : (requests four_machine (λ t. none) 4096 true 3 two_requests).1 ≡ pending
unfolding requests next_requests recv_request receive reads_left take_body execute is_finished
    has_error run_calls new_parser content_length new_request get_as find
requests_run = refl
