-- ===== src/IoManager/Idle.antt =====
-- The idle fiber of src/iomanager.cpp: the stop test, the time-out, and the handling of the ready
-- descriptors.
use cool.Base.{
  ℕ, Bool, not, ◌&&◌, ◌||◌, List, [], ◌∷◌, Option, none, some, get_elem?, ltb, ◌==◌, if◌then◌else◌,
}
use cool.IoManager.{read, write, Events, IoManager, any_event, tell, trigger_if}

-- An epoll_event of a descriptor context: EPOLLIN, EPOLLOUT, and EPOLLERR or EPOLLHUP.
pub record Ready : Type 0 where
  pub fd : ℕ
  pub epollin : Bool
  pub epollout : Bool
  pub failed : Bool

-- real_events.
abbrev pub real_events : Ready → Events
real_events r = record { has_read = r.epollin || r.failed; has_write = r.epollout || r.failed }

abbrev pub meet : Events → Events → Events
meet a b = record { has_read = a.has_read && b.has_read; has_write = a.has_write && b.has_write }

abbrev pub minus : Events → Events → Events
minus a b = record {
  has_read = a.has_read && not b.has_read;
  has_write = a.has_write && not b.has_write;
}

-- One event of the loop of idle().
unfoldable pub handle_ready : IoManager → Ready → Bool → Option IoManager
handle_ready m r ctl_ok = elim (get_elem? m.contexts r.fd) [
  | none ↦ none
  | some c ↦
      let real = real_events r in
      if not (any_event (meet c.events real))
      then some m
      else (if not ctl_ok
          then some m
          else trigger_if real.has_write write r.fd (
              trigger_if real.has_read read r.fd
                (some (record m { interest = tell m.interest r.fd (minus c.events real) }))))
]

-- The loop over the events of one epoll_wait, each with the result of its epoll_ctl.
unfoldable pub handle_all : IoManager → List (Ready × Bool) → Option IoManager
handle_all m [] = some m
handle_all m ((r, ok_) ∷ rs) = elim (handle_ready m r ok_) [
  | none ↦ none
  | some m' ↦ handle_all m' rs
]

-- stopping(timeout): the parameter is a copy, so the caller's variable keeps its value. `wait` is
-- getNextTimer() and `base` is Scheduler::stopping().
unfoldable pub stopping : IoManager → ℕ → Bool → Bool
stopping m wait base = wait == 18446744073709551615 && (m.pending == 0 && base)

-- The time-out that idle() hands to epoll_wait from its variable next_timeout.
unfoldable pub epoll_timeout : ℕ → ℕ
epoll_timeout next =
    if next == 18446744073709551615 then 3000 else (if ltb next 3000 then next else 3000)
