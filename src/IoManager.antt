-- ===== src/IoManager.antt =====
-- src/iomanager.h and src/iomanager.cpp: the descriptor contexts, their registered events, and the
-- handling of ready descriptors. An Event value is READ or WRITE, and a mask of them is the record
-- `Events` of the bits 0x1 and 0x4. The result of each epoll_ctl is an argument; `interest` is what
-- the kernel was last told of a descriptor. Descriptors are not negative. `none` is a failed ASSERT
-- or an access outside the vector or through a null pointer.
pub mod Idle
pub mod Pending
pub mod Pipe
pub mod Loop
pub mod Add
mod Runs
use cool.Base.{
  ℕ, zero, suc, ◌+◌, ◌-◌, ◌*◌, ◌/◌, Bool, true, false, not, ◌&&◌, ◌||◌, List, [], ◌∷◌, ◌++◌, Option,
  none, some, length, get_elem?, set, take, ltb, leb, ◌==◌, if◌then◌else◌, is_some,
}
use cool.Scheduler.{Task}

pub data Event : Type 0 where
  read write : Event

pub record Events : Type 0 where
  pub has_read : Bool
  pub has_write : Bool

abbrev pub no_events : Events
no_events = record { has_read = false; has_write = false }

-- events & event, events | event, events & ~event.
abbrev pub has : Events → Event → Bool
has e read = e.has_read
has e write = e.has_write

abbrev pub with_event : Events → Event → Events
with_event e read = record e { has_read = true }
with_event e write = record e { has_write = true }

abbrev pub without_event : Events → Event → Events
without_event e read = record e { has_read = false }
without_event e write = record e { has_write = false }

abbrev pub any_event : Events → Bool
any_event e = e.has_read || e.has_write

pub record EventContext : Type 0 where
  pub scheduler : Option ℕ
  pub fiber : Option ℕ
  pub cb : Option ℕ

abbrev pub empty_context : EventContext
empty_context = record { scheduler = none; fiber = none; cb = none }

pub record FdContext : Type 0 where
  pub fd : ℕ
  pub on_read : EventContext
  pub on_write : EventContext
  pub events : Events

pub record IoManager : Type 0 where
  pub contexts : List FdContext
  pub pending : ℕ
  pub interest : ℕ → Option Events
  -- The calls of Scheduler::schedule, each with its scheduler.
  pub scheduled : List (ℕ × Task)

-- FdContext::getContext, and a write through its reference.
unfoldable pub get_context : FdContext → Event → EventContext
get_context c read = c.on_read
get_context c write = c.on_write

unfoldable pub put_context : FdContext → Event → EventContext → FdContext
put_context c read x = record c { on_read = x }
put_context c write x = record c { on_write = x }

-- The task of triggerEvent, and the context from which it was swapped out.
abbrev pub swap_task : EventContext → Task × EventContext
swap_task x =
    if is_some x.cb
    then (
      record { fiber = none; cb = x.cb; thread = none },
      record x { scheduler = none; cb = none },
    )
    else (
      record { fiber = x.fiber; cb = none; thread = none },
      record x { scheduler = none; fiber = none },
    )

-- FdContext::triggerEvent.
unfoldable pub trigger_event : FdContext → Event → Option (FdContext × (ℕ × Task))
trigger_event c e =
    let x = get_context c e in
    let c' = put_context (record c { events = without_event c.events e }) e (swap_task x).1 in
    elim x.scheduler [
      | none ↦ none
      | some s ↦ if has c.events e then some (c', (s, (swap_task x).0)) else none
    ]

abbrev new_context : ℕ → FdContext
new_context fd = record {
  fd = fd;
  on_read = empty_context;
  on_write = empty_context;
  events = no_events;
}

unfoldable pub fresh_contexts : ℕ → ℕ → List FdContext
fresh_contexts i zero = []
fresh_contexts i (suc n) = new_context i ∷ fresh_contexts (suc i) n

-- resizeContext(size): the vector is cut or filled up with new contexts.
unfoldable pub resize_context : List FdContext → ℕ → List FdContext
resize_context cs size = take size cs ++ fresh_contexts (length cs) (size - length cs)

-- The vector in which addEvent looks the descriptor up; `fd * 1.5` is rounded down.
unfoldable pub room_for : List FdContext → ℕ → List FdContext
room_for cs fd = if ltb fd (length cs) then cs else resize_context cs (fd * 3 / 2)

-- epoll_ctl for the descriptor: the new interest, where an empty mask deletes it.
abbrev pub tell : (ℕ → Option Events) → ℕ → Events → ℕ → Option Events
tell interest fd e n = if n == fd then (if any_event e then some e else none) else interest n

-- What addEvent stores for the event: the callback, or else the running fiber.
abbrev pub stored_context : EventContext → Option ℕ → Option ℕ → ℕ → EventContext
stored_context x scheduler cb this =
    if is_some cb
    then record x { scheduler = scheduler; cb = cb }
    else record x { scheduler = scheduler; fiber = some this }

-- addEvent(fd, event, cb), called under `scheduler` by the fiber `this` in state EXEC; true for 0
-- and false for -1.
unfoldable pub add_event :
    IoManager → ℕ → Event → Option ℕ → Option ℕ → ℕ → Bool → Option (IoManager × Bool)
add_event m fd e cb scheduler this ctl_ok =
    let cs = room_for m.contexts fd in
    let m1 = record m { contexts = cs } in
    elim (get_elem? cs fd) [
      | none ↦ none
      | some c ↦
          if has c.events e
          then none
          else (if not ctl_ok
              then some (m1, false)
              else some (
                record m1 {
                  pending = m.pending + 1;
                  interest = tell m.interest fd (with_event c.events e);
                  contexts = set cs fd (
                      put_context (record c { events = with_event c.events e }) e
                        (stored_context (get_context c e) scheduler cb this));
                },
                true,
              ))
    ]

-- delEvent(fd, event).
unfoldable pub del_event : IoManager → ℕ → Event → Bool → IoManager × Bool
del_event m fd e ctl_ok = elim (get_elem? m.contexts fd) [
  | none ↦ (m, false)
  | some c ↦
      if not (has c.events e)
      then (m, false)
      else (if not ctl_ok then (m, false) else (
        record m {
          pending = m.pending - 1;
          interest = tell m.interest fd (without_event c.events e);
          contexts =
              set m.contexts fd
                (put_context (record c { events = without_event c.events e }) e empty_context);
        },
        true,
      ))
]

-- triggerEvent on the context of `fd`, and the count of pending events.
unfoldable pub trigger_at : IoManager → ℕ → Event → Option IoManager
trigger_at m fd e = elim (get_elem? m.contexts fd) [
  | none ↦ none
  | some c ↦ elim (trigger_event c e) [
    | none ↦ none
    | some (c', t) ↦ some (record m {
      contexts = set m.contexts fd c';
      pending = m.pending - 1;
      scheduled = m.scheduled ++ t ∷ [];
    })
  ]
]

abbrev pub answer : Bool → Option IoManager → Option (IoManager × Bool)
answer b none = none
answer b (some m) = some (m, b)

-- cancelEvent(fd, event): the event is triggered.
unfoldable pub cancel_event : IoManager → ℕ → Event → Bool → Option (IoManager × Bool)
cancel_event m fd e ctl_ok = elim (get_elem? m.contexts fd) [
  | none ↦ some (m, false)
  | some c ↦
      if not (has c.events e)
      then some (m, false)
      else (if not ctl_ok
          then some (m, false)
          else answer true (
              trigger_at (record m { interest = tell m.interest fd (without_event c.events e) }) fd
                e))
]

abbrev pub trigger_if : Bool → Event → ℕ → Option IoManager → Option IoManager
trigger_if b e fd none = none
trigger_if b e fd (some m) = if b then trigger_at m fd e else some m

-- cancekAll(fd).
unfoldable pub cancel_all : IoManager → ℕ → Bool → Option (IoManager × Bool)
cancel_all m fd ctl_ok = elim (get_elem? m.contexts fd) [
  | none ↦ some (m, false)
  | some c ↦
      if not (any_event c.events)
      then some (m, false)
      else (if not ctl_ok
          then some (m, false)
          else answer true (
              trigger_if c.events.has_write write fd (
                trigger_if c.events.has_read read fd
                  (some (record m { interest = tell m.interest fd no_events })))))
]
