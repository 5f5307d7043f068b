-- ===== src/Server/Http.antt =====
-- src/http/http_server.h and src/http/http_server.cpp: HttpServer::handle_client on a session. The
-- generated parser, the write of the socket, fnmatch and the handlers of the servlets are arguments;
-- `uri_of` is the path of a request as the key of the servlet table, and a servlet works on the
-- request and the response.
pub mod Requests
pub mod Served
use cool.Base.{
  ℕ, zero, suc, Bool, true, false, not, ◌||◌, List, [], ◌∷◌, Option, none, some, if◌then◌else◌,
}
use cool.Base.Text.{Text}
use Prim.Native.String.{String}
use cool.Http.Message.{HttpRequest, HttpResponse, new_response}
use cool.Http.Parser.{Machine, RequestCall, new_parser}
use cool.Http.Session.{
  Read, Received, received, closed, waiting, fault, receive, recv_request, send_response,
}
use cool.Servlet.{ServletDispatch, handle, new}

-- The TcpServer part is in Server; m_dispatch starts as an empty table.
pub record HttpServer : Type 0 where
  pub is_keep_alive : Bool
  pub dispatch : ServletDispatch (HttpRequest × HttpResponse)

unfoldable pub new_http_server : Bool → HttpServer
new_http_server keepalive = record { is_keep_alive = keepalive; dispatch = new }

-- How handle_client stands: ended by close, in a read that is still to come, or in undefined behaviour
-- of readFixSize.
pub data End : Type 0 where
  ended pending faulted : End

-- The reads that one recvRequest leaves.
unfoldable pub reads_left : {M : Type 0} → Machine M RequestCall → ℕ → List Read → List Read
reads_left m buf_size reads = elim (receive m buf_size [] (new_parser m) reads) [
  | received (kept, p, rest) ↦ rest
  | _ ↦ []
]

-- The stream, the responses that it was handed in order, and how handle_client stands; `none` for
-- fuel that ran out.
abbrev pub Handled : Type 0 → Type 0
Handled S = Option (S × List HttpResponse × End)

module _ {S : Type 0} where
  unfoldable pub keep_response : HttpResponse → Handled S → Handled S
  keep_response rsp none = none
  keep_response rsp (some (s, rsps, e)) = some (s, rsp ∷ rsps, e)

  -- The end of a round, behind sendResponse, whose answer is not looked at: the test of the loop.
  unfoldable pub after_send : Bool → HttpResponse → (S → Handled S) → Option (S × ℕ) → Handled S
  after_send keep_alive rsp again none = none
  after_send keep_alive rsp again (some (s, n)) =
      if keep_alive then keep_response rsp (again s) else some (s, rsp ∷ [], ended)

  -- A round with what recvRequest hands on.
  unfoldable pub after_recv : (HttpRequest → Handled S) → S → Received HttpRequest → Handled S
  after_recv serve s (received req) = serve req
  after_recv serve s closed = some (s, [], ended)
  after_recv serve s waiting = some (s, [], pending)
  after_recv serve s fault = some (s, [], faulted)

-- The response to a request: the new HttpResponse after m_dispatch->handle.
unfoldable pub respond :
    (String → String → Bool)
    → (Text → String)
    → (HttpRequest × HttpResponse → HttpRequest × HttpResponse)
    → HttpServer
    → HttpRequest
    → HttpResponse
respond fnmatch uri_of write_404 h req =
    (handle fnmatch write_404 h.dispatch (uri_of req.path)
      (req, new_response req.version (req.close || not h.is_keep_alive))).0.1

module _ {M S : Type 0} (m : Machine M RequestCall) (cast : Text → Option ℕ) (buf_size : ℕ)
    (write : S → List ℕ → S × ℕ) (answer : HttpRequest → HttpResponse) (keep_alive : Bool) where
  -- The do loop for at most `fuel` rounds, each with `wfuel` for the loop of the write.
  unfoldable pub serve_loop : ℕ → ℕ → S → List Read → Handled S
  serve_loop zero wfuel s reads = none
  serve_loop (suc fuel) wfuel s reads =
      after_recv
        (λ req.
          after_send keep_alive (answer req)
            (λ s'. serve_loop fuel wfuel s' (reads_left m buf_size reads))
            (send_response write wfuel s (answer req)))
        s (recv_request m cast buf_size reads)

-- handle_client(client); session->close() behind the loop is in `ended`.
unfoldable pub handle_client :
    {M S : Type 0}
    → Machine M RequestCall
    → (Text → Option ℕ)
    → ℕ
    → (S → List ℕ → S × ℕ)
    → (String → String → Bool)
    → (Text → String)
    → (HttpRequest × HttpResponse → HttpRequest × HttpResponse)
    → ℕ
    → ℕ
    → HttpServer
    → S
    → List Read
    → Handled S
handle_client m cast buf_size write fnmatch uri_of write_404 fuel wfuel h s reads =
    serve_loop m cast buf_size write (respond fnmatch uri_of write_404 h) h.is_keep_alive fuel wfuel
      s reads
