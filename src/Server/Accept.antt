-- ===== src/Server/Accept.antt =====
-- The accept loops of src/tcp_server.cpp under start and stop, in any order of their steps.
use cool.Base.{
  ℕ, zero, suc, ◌+◌, ◌≤◌, ◌≡◌, refl, ◌∙◌, true, List, [], ◌∷◌, ◌++◌, Option, none, some, map,
  Bool-cases, inl, inr, arith, Option-cases, length, get_elem?, set, length-append,
}
use cool.Socket.{Socket}
use cool.Server.{
  Loop, testing, accepting, finished, TcpServer, start, loop_step, run_loop, stop, run_closing,
}

-- What may happen to a server that is bound.
pub data Event : Type 0 where
  starts stops closes : Event
  loops_on : (i : ℕ) (answer : Option Socket) → Event

unfoldable pub handle : TcpServer → Event → TcpServer
handle s starts = start s
handle s stops = stop s
handle s closes = run_closing s
handle s (loops_on i answer) = run_loop s i answer

unfoldable pub run : TcpServer → List Event → TcpServer
run s [] = s
run s (e ∷ es) = run (handle s e) es

-- How many loops are in accept.
abbrev pub waiting : List Loop → ℕ
waiting [] = 0
waiting (accepting ∷ ls) = suc (waiting ls)
waiting (testing ∷ ls) = waiting ls
waiting (finished ∷ ls) = waiting ls

abbrev weight : Loop → ℕ
weight accepting = 1
weight testing = 0
weight finished = 0

waiting-set :
    (ls : List Loop) (i : ℕ) (l m : Loop)
    → get_elem? ls i ≡ some l
    → waiting (set ls i m) + weight l ≡ waiting ls + weight m
waiting-set [] i l m e = absurd cc
waiting-set (k ∷ ls) zero l m e = ground arith
waiting-set (k ∷ ls) (suc i) l m e = ground (arith, waiting-set ls i l m e)

waiting-start :
    (ls : List Loop) (ks : List Socket) → waiting (ls ++ map (λ _. testing) ks) ≡ waiting ls
waiting-start [] [] = refl
waiting-start [] (k ∷ ks) = waiting-start [] ks
waiting-start (l ∷ ls) ks = ground (arith, waiting-start ls ks)

-- The clients, and those that loops in accept may still bring.
abbrev pub potential : TcpServer → ℕ
potential s = length s.clients + waiting s.loops

loop_step-potential :
    (s : TcpServer) (l : Loop) (answer : Option Socket)
    → s.is_stop ≡ true
    → length (loop_step s l answer).1.clients + weight (loop_step s l answer).0
      ≤ length s.clients + weight l
unfolding loop_step
loop_step-potential s testing answer h = ground arith
loop_step-potential s accepting none h = omega arith
loop_step-potential s accepting (some c) h =
    omega
      (arith, length-append s.clients (record { socket = c; recv_timeout = s.recv_timeout } ∷ []))
loop_step-potential s finished answer h = omega arith

loop_step_kept :
    (s : TcpServer) (l : Loop) (answer : Option Socket)
    → ((loop_step s l answer).1.loops ≡ s.loops)
      × ((loop_step s l answer).1.is_stop ≡ s.is_stop)
      × ((loop_step s l answer).1.is_start ≡ s.is_start)
unfolding loop_step
loop_step_kept s testing answer = (refl, refl, refl)
loop_step_kept s accepting none = (refl, refl, refl)
loop_step_kept s accepting (some c) = (refl, refl, refl)
loop_step_kept s finished answer = (refl, refl, refl)

-- The server after a step of the loop `i`, by the loop that stands there.
run_loop_off :
    (s : TcpServer) (i : ℕ) (answer : Option Socket)
    → get_elem? s.loops i ≡ none
    → run_loop s i answer ≡ s
unfolding run_loop
run_loop_off s i answer e = rw (run_loop, e) refl

run_loop_on :
    (s : TcpServer) (i : ℕ) (l : Loop) (answer : Option Socket)
    → get_elem? s.loops i ≡ some l
    → run_loop s i answer ≡ record (loop_step s l answer).1 {
      loops = set (loop_step s l answer).1.loops i (loop_step s l answer).0;
    }
unfolding run_loop
run_loop_on s i l answer e = rw (run_loop, e) refl

run_loop-potential :
    (s : TcpServer) (i : ℕ) (answer : Option Socket)
    → s.is_stop ≡ true
    → potential (run_loop s i answer) ≤ potential s
run_loop-potential s i answer h = elim (Option-cases (get_elem? s.loops i)) [
  | inl e ↦ rw (run_loop_off s i answer e) (omega arith)
  | inr (l, e) ↦
      let (k, _, _) = loop_step_kept s l answer in
      rw (run_loop_on s i l answer e, k)
        (omega (
          arith,
          loop_step-potential s l answer h,
          waiting-set s.loops i l (loop_step s l answer).0 e,
        ))
]

run_loop_stopped :
    (s : TcpServer) (i : ℕ) (answer : Option Socket) → (run_loop s i answer).is_stop ≡ s.is_stop
run_loop_stopped s i answer = elim (Option-cases (get_elem? s.loops i)) [
  | inl e ↦ rw (run_loop_off s i answer e) refl
  | inr (l, e) ↦
      let (_, k, _) = loop_step_kept s l answer in rw (run_loop_on s i l answer e, k) refl
]

handle_stopped :
    (s : TcpServer) (e : Event)
    → s.is_stop ≡ true
    → ((handle s e).is_stop ≡ true) × (potential (handle s e) ≤ potential s)
unfolding handle start stop run_closing
handle_stopped s starts h = elim (Bool-cases s.is_start) [
  | inl b ↦ rw b (h, omega arith)
  | inr b ↦ rw b (h, omega (arith, waiting-start s.loops s.socks))
]
handle_stopped s stops h = ground arith
handle_stopped s closes h = ground arith
handle_stopped s (loops_on i answer) h =
    (run_loop_stopped s i answer ∙ h, run_loop-potential s i answer h)

-- Once stop has been called, then whatever steps follow in whatever order, with further calls of start
-- or stop among them, no more clients are handed to the worker than there were accept loops inside
-- accept at that moment.
pub clients_after_stop :
    (s : TcpServer) (es : List Event)
    → s.is_stop ≡ true
    → length (run s es).clients ≤ length s.clients + waiting s.loops
unfolding run
clients_after_stop s [] h = omega arith
clients_after_stop s (e ∷ es) h =
    let (k, le) = handle_stopped s e h in omega (arith, le, clients_after_stop (handle s e) es k)
