-- ===== src/Hook/Io.antt =====
-- do_io, connect, accept and close of src/hook.cpp.
use cool.Base.{
  ℕ, Bool, true, false, not, ◌&&◌, ◌||◌, List, [], ◌∷◌, Option, none, some, ◌==◌, if◌then◌else◌,
  is_some,
}
use cool.Timer
use cool.IoManager.{Event, read, write, add_event, cancel_event, cancel_all}
use cool.Fd.{so_rcvtimeo, no_timeout, get_timeout}
use cool.Fd
use cool.Hook.{
  Answer, returned, failed, eintr, ebadf, eagain, etimedout, einprogress, is_failed, World, Outcome,
  done, waiting, ◌>>=◌, check, context_of, make_context,
}

-- The call with its event and the option of its timeout.
pub record Op : Type 0 where
  pub fd : ℕ
  pub event : Event
  pub timeout_so : ℕ

abbrev pub reading : ℕ → Op
reading fd = record { fd = fd; event = read; timeout_so = so_rcvtimeo }

-- SO_SNDTIMEO
abbrev pub writing : ℕ → Op
writing fd = record { fd = fd; event = write; timeout_so = 21 }

-- One wait: what epoll_ctl answers, the clock and the address of a new Timer, what other fibers do
-- until this one runs again, and whether the callback of the timeout ran then, with the answer of
-- epoll_ctl to its cancelEvent.
pub record Wake : Type 0 where
  pub ctl_ok : Bool
  pub ctl_errno : ℕ
  pub now : ℕ
  pub address : ℕ
  pub others : World → World
  pub timed_out : Bool
  pub cancel_ok : Bool

-- The loop over EINTR: the first answer that is not one, and those left.
unfoldable pub call : List Answer → Option (Answer × List Answer)
call [] = none
call (a ∷ answers) =
    let rest = call answers in if is_failed eintr a then rest else some (a, answers)

-- addConditionTimer, without a timeout no timer; its callback and its condition are named by the
-- address of the Timer.
unfoldable pub arm : ℕ → World → Wake → World
arm to w k = if to == no_timeout then w else record w {
  timers = Timer.add_condition_timer w.timers k.now k.address to k.address k.address false;
}

-- `if (timer) timer->cancel()`.
unfoldable pub disarm : ℕ → World → Wake → Outcome World
disarm to w k =
    if to == no_timeout
    then done w
    else (do (ts, b) ← check (Timer.cancel w.timers k.address); done (record w { timers = ts }))

-- The callback of the timeout.
unfoldable pub on_timeout : ℕ → Event → World → Wake → Outcome World
on_timeout fd e w k = do
  (m, b) ← check (cancel_event w.iom fd e k.cancel_ok)
  done (record w { iom = m })

abbrev pub is_cancelled : ℕ → Wake → Bool
is_cancelled to k = not (to == no_timeout) && k.timed_out

-- addEvent for the running fiber; true for its answer 0.
unfoldable pub register : ℕ → Event → World → Bool → Outcome (World × Bool)
register fd e w ctl_ok = do
  (m, b) ← check (add_event w.iom fd e none w.scheduler w.fiber ctl_ok)
  done (record w { iom = m }, b)

-- The wait for a registered event.
unfoldable pub sleep_until : ℕ → Event → ℕ → World → Wake → Bool → Outcome World
sleep_until fd e to w k false = done w
sleep_until fd e to w k true =
    if is_cancelled to k then on_timeout fd e (k.others w) k else done (k.others w)

-- A timer, addEvent and, when it answers 0, the wait; true for a registered event.
unfoldable pub wait_for : ℕ → Event → ℕ → World → Wake → Outcome (World × Bool)
wait_for fd e to w k = do
  (w2, b) ← register fd e (arm to w k) k.ctl_ok
  w3 ← sleep_until fd e to w2 k b
  w4 ← disarm to w3 k
  done (w4, b)

-- The body behind retry, with the calls and the waits to come.
unfoldable pub retry : Op → ℕ → World → List Answer → List Wake → Outcome (World × Answer)
retry op to w answers [] = elim (call answers) [
  | none ↦ waiting
  | some (a, rest) ↦ if is_failed eagain a then waiting else done (w, a)
]
retry op to w answers (k ∷ ks) = elim (call answers) [
  | none ↦ waiting
  | some (a, rest) ↦ if not (is_failed eagain a) then done (w, a) else (do
    (w', b) ← wait_for op.fd op.event to w k
    (if not b
        then done (w', failed k.ctl_errno)
        else (if is_cancelled to k then done (w', failed etimedout) else retry op to w' rest ks)))
]

abbrev pub direct : World → List Answer → Outcome (World × Answer)
direct w [] = waiting
direct w (a ∷ answers) = done (w, a)

unfoldable pub do_io : Op → World → List Answer → List Wake → Outcome (World × Answer)
do_io op w answers ks = if not w.hook_enable then direct w answers else elim (context_of w op.fd) [
  | none ↦ direct w answers
  | some c ↦
      if c.is_closed
      then done (w, failed ebadf)
      else (if not c.is_socket || c.user_nonblock
          then direct w answers
          else retry op (get_timeout c op.timeout_so) w answers ks)
]

-- read, readv, recv, recvfrom and recvmsg differ in the call, and so do the calls that write.
unfoldable pub read_call : ℕ → World → List Answer → List Wake → Outcome (World × Answer)
read_call fd = do_io (reading fd)

unfoldable pub write_call : ℕ → World → List Answer → List Wake → Outcome (World × Answer)
write_call fd = do_io (writing fd)

unfoldable pub accepted : World → Answer → Outcome (World × Answer)
accepted w (failed e) = done (w, failed e)
accepted w (returned fd) = do w' ← make_context w fd; done (w', returned fd)

unfoldable pub accept : ℕ → World → List Answer → List Wake → Outcome (World × Answer)
accept fd w answers ks = do (w', a) ← do_io (reading fd) w answers ks; accepted w' a

-- The answer to getsockopt(SO_ERROR), where `returned e` has stored e.
unfoldable pub socket_error : Answer → Answer
socket_error (failed e) = failed e
socket_error (returned e) = if e == 0 then returned 0 else failed e

unfoldable pub connect_wait : ℕ → ℕ → World → Option Wake → Answer → Outcome (World × Answer)
connect_wait fd to w none so_error = waiting
connect_wait fd to w (some k) so_error = do
  (w', b) ← wait_for fd write to w k
  done (w', if b && is_cancelled to k then failed etimedout else socket_error so_error)

-- connect_with_timeout: the answer of connect_f, the wait and the answer to getsockopt.
unfoldable pub connect_with_timeout :
    ℕ → ℕ → World → Answer → Option Wake → Answer → Outcome (World × Answer)
connect_with_timeout fd to w a k so_error =
    if not w.hook_enable then done (w, a) else elim (context_of w fd) [
      | none ↦ done (w, failed ebadf)
      | some c ↦
          if c.is_closed
          then done (w, failed ebadf)
          else (if not c.is_socket
              then done (w, a)
              else (if is_failed einprogress a
                  then connect_wait fd to w k so_error
                  else done (w, a)))
    ]

-- close: `has_iom` is IOManager::GetThis(), `ctl_ok` is epoll_ctl's answer to cancekAll.
unfoldable pub close : ℕ → World → Bool → Bool → Answer → Outcome (World × Answer)
close fd w has_iom ctl_ok a =
    if not w.hook_enable || not (is_some (context_of w fd)) then done (w, a) else (do
      m ← (if has_iom then (do (m, b) ← check (cancel_all w.iom fd ctl_ok); done m) else done w.iom)
      done (record w { iom = m; fds = Fd.del w.fds fd }, a))

-- connect, with s_connect_timeout.
unfoldable pub connect : ℕ → ℕ → World → Answer → Option Wake → Answer → Outcome (World × Answer)
connect fd connect_timeout w a k so_error = connect_with_timeout fd connect_timeout w a k so_error
