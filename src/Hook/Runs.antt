-- ===== src/Hook/Runs.antt =====
-- A socket behind the hooks of src/hook.cpp, and the theorems at it.
use cool.Base.{ℕ, ◌≡◌, refl, true, false, List, [], ◌∷◌, none, some, arith}
use cool.Timer.{contains}
use cool.IoManager.{read, no_events, empty_context, FdContext, room_for}
use cool.IoManager.Pending.{registered}
use cool.Fd.{FdCtx, get_timeout}
use cool.Hook.{World, Answer, returned, failed, eintr, eagain, etimedout, done}
use cool.Hook.Io.{Wake, call, do_io, reading, retry}
use cool.Hook.Safety.{Hooked, do_io-Final, is_final}
use cool.Hook.Timeout.{Registered, CanWait, TimesOut, do_io-TimesOut}

abbrev client : FdCtx
client = record {
  is_init = true;
  is_socket = true;
  is_closed = false;
  sys_nonblock = true;
  user_nonblock = false;
  fd = 1;
  recv_timeout = 500;
  send_timeout = 500;
}

abbrev idle : ℕ → FdContext
idle fd = record { fd = fd; on_read = empty_context; on_write = empty_context; events = no_events }

abbrev world : World
world = record {
  iom = record {
    contexts = idle 0 ∷ idle 1 ∷ [];
    pending = 0;
    interest = λ _. none;
    scheduled = [];
  };
  timers = record {
    objs = λ _. record { recurring = false; ms = 0; next = 0; cb = none };
    timers = [];
    tickled = false;
    previous_time = 0;
    front_inserts = 0;
  };
  fds = none ∷ some client ∷ [];
  kernel = record { stat = λ _. some true; nonblock = λ _. true };
  hook_enable = true;
  scheduler = some 4;
  fiber = 6;
}

abbrev expiring : Wake
expiring = record {
  ctl_ok = true;
  ctl_errno = 0;
  now = 1000;
  address = 9;
  others = λ w. w;
  timed_out = true;
  cancel_ok = true;
}

abbrev blocked : List Answer
blocked = failed eintr ∷ failed eagain ∷ returned 3 ∷ []

world-Hooked : Hooked world 1
world-Hooked = record { enabled = refl; blocking = refl }

expiring-TimesOut : TimesOut 1 read expiring
expiring-TimesOut = record { ctl_ok = refl; cancel_ok = refl; timed_out = refl; others = λ w v. v }

world-CanWait : CanWait 1 read world expiring
unfolding registered room_for contains
world-CanWait = record {
  sound = record { counted = refl; armed = (((λ k. cc), λ k. cc), (((λ k. cc), λ k. cc), tt)) };
  inv = record { sorted = tt; armed = λ a e. cc };
  two = omega arith;
  free = (idle 1, refl, refl);
  scheduled = (4, refl);
  fresh = refl;
}

do_io-TimesOut_example :
    (w' : World) × (do_io (reading 1) world blocked (expiring ∷ []) ≡ done (w', failed etimedout))
    × Registered false 1 read w'
unfolding call get_timeout
do_io-TimesOut_example =
    do_io-TimesOut (reading 1) world blocked (returned 3 ∷ []) expiring [] (failed eagain)
      world-Hooked refl refl refl world-CanWait expiring-TimesOut

do_io-Final_example : is_final (returned 3) ≡ true
unfolding do_io call retry
do_io-Final_example =
    do_io-Final (reading 1) world world (failed eintr ∷ returned 3 ∷ []) [] (returned 3)
      world-Hooked tt refl
