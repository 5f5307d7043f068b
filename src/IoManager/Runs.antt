-- ===== src/IoManager/Runs.antt =====
-- Two descriptors of src/iomanager.cpp, and the theorems at them.
use cool.Base.{◌+◌, ◌≡◌, refl, true, false, [], ◌∷◌, none, some, arith, length, ltb, get_elem?}
use cool.IoManager.{write, no_events, empty_context, FdContext, IoManager, room_for, add_event}
use cool.IoManager.Pipe.{Pipe, tickles, drains, run, run_woken}
use cool.IoManager.Idle.{Ready, real_events, minus, handle_ready}
use cool.IoManager.Pending.{Sound, count, registered}
use cool.IoManager.Loop.{handle_ready_lem}
use cool.IoManager.Add.{Added, add_event-Added}

abbrev reading : FdContext
reading = record {
  fd = 1;
  on_read = record { scheduler = some 4; fiber = some 6; cb = none };
  on_write = empty_context;
  events = record { has_read = true; has_write = false };
}

abbrev manager : IoManager
manager = record {
  contexts =
      record { fd = 0; on_read = empty_context; on_write = empty_context; events = no_events }
      ∷ reading
      ∷ [];
  pending = 1;
  interest = λ _. none;
  scheduled = [];
}

manager-Sound : Sound manager
unfolding registered
manager-Sound = record {
  counted = refl;
  armed = (((λ k. cc), λ k. cc), (((λ k. refl), λ k. cc), tt));
}

abbrev ready_one : Ready
ready_one = record { fd = 1; epollin = true; epollout = false; failed = false }

add_event-Added_example :
    (m' : IoManager) × (add_event manager 1 write (some 8) (some 4) 3 true ≡ some (m', true))
    × Added manager 1 write (some 8) 4 3 reading m'
unfolding room_for
add_event-Added_example =
    add_event-Added manager 1 write (some 8) 4 3 reading manager-Sound (omega arith) refl refl

handle_ready_lem_example :
    (m' : IoManager) × (handle_ready manager ready_one true ≡ some m')
    × Sound m'
    × ((c' : FdContext) × (get_elem? m'.contexts 1 ≡ some c')
        × (c'.events ≡ minus reading.events (real_events ready_one)))
    × (length m'.scheduled ≡ 0 + count (real_events ready_one))
handle_ready_lem_example =
    handle_ready_lem manager ready_one reading manager-Sound refl (λ k. refl) (λ k. cc)

abbrev quiet : Pipe
quiet = record { epfd = 3; read_end = 4; write_end = 5; unread = 0 }

run_woken_example :
    (q : Pipe) × (run quiet (tickles 2 ∷ drains ∷ tickles 0 ∷ tickles 1 ∷ []) ≡ some q)
    × (ltb 0 q.unread ≡ true)
run_woken_example = run_woken (tickles 2 ∷ drains ∷ tickles 0 ∷ tickles 1 ∷ []) quiet
