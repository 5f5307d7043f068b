-- ===== src/Timer.antt =====
-- src/timer.h and src/timer.cpp: timers, the ordered set of the pending ones, and their expiry.
-- A Timer object lives at an address of the store `objs`; the std::set holds addresses in the order
-- of `Comparator`, so that a write to a shared Timer is seen by every holder. The lock of the
-- manager makes each operation one step. The clock is the argument `now` of each call.
pub mod Order
pub mod Invariant
pub mod Rearm
pub mod Cut
pub mod Fire
pub mod Expiry
pub mod Delivery
pub mod Wait
mod Runs
use cool.Base.{
  ℕ, ◌+◌, ◌-◌, ◌%◌, ◌^◌, Bool, true, false, not, ◌&&◌, ◌||◌, List, [], ◌∷◌, ◌++◌, Option, none,
  some, ltb, leb, ◌==◌, if◌then◌else◌, is_some,
}

-- A callback of the caller, and one that addConditionTimer binds to a weak pointer.
pub data Callback : Type 0 where
  plain : ℕ → Callback
  guarded : ℕ → ℕ → Callback

pub record Timer : Type 0 where
  pub recurring : Bool
  pub ms : ℕ
  pub next : ℕ
  pub cb : Option Callback

pub record TimerManager : Type 0 where
  pub objs : ℕ → Timer
  pub timers : List ℕ
  pub tickled : Bool
  pub previous_time : ℕ
  -- How often onTimerInsertAtFront was called.
  pub front_inserts : ℕ

abbrev pub wrap64 : ℕ → ℕ
wrap64 n = n % 2 ^ 64

abbrev pub update : (ℕ → Timer) → ℕ → Timer → ℕ → Timer
update objs a t b = if b == a then t else objs b

-- Comparator on two non-null pointers.
abbrev pub less : (ℕ → Timer) → ℕ → ℕ → Bool
less objs l r =
    if ltb (objs l).next (objs r).next
    then true
    else (if ltb (objs r).next (objs l).next then false else ltb l r)

-- std::set::insert, find and erase, over the elements in order.
unfoldable pub insert : (ℕ → Timer) → ℕ → List ℕ → List ℕ
insert objs a [] = a ∷ []
insert objs a (b ∷ bs) =
    if less objs a b then a ∷ (b ∷ bs) else (if less objs b a then b ∷ insert objs a bs else b ∷ bs)

unfoldable pub contains : ℕ → List ℕ → Bool
contains a [] = false
contains a (b ∷ bs) = b == a || contains a bs

unfoldable pub erase : ℕ → List ℕ → List ℕ
erase a [] = []
erase a (b ∷ bs) = if b == a then bs else b ∷ erase a bs

abbrev pub take_while : (ℕ → Bool) → List ℕ → List ℕ
take_while p [] = []
take_while p (x ∷ xs) = if p x then x ∷ take_while p xs else []

abbrev pub drop_while : (ℕ → Bool) → List ℕ → List ℕ
drop_while p [] = []
drop_while p (x ∷ xs) = if p x then drop_while p xs else x ∷ xs

abbrev is_front : ℕ → List ℕ → Bool
is_front a [] = false
is_front a (b ∷ bs) = b == a

-- TimerManager::addTimer(val, lock).
unfoldable pub add_locked : TimerManager → ℕ → TimerManager
add_locked m a =
    let ts = insert m.objs a m.timers in
    if is_front a ts && not m.tickled
    then record m { timers = ts; tickled = true; front_inserts = m.front_inserts + 1 }
    else record m { timers = ts }

-- TimerManager::addTimer(ms, cb, recurring); `a` is the address of the new Timer.
unfoldable pub add_timer : TimerManager → ℕ → ℕ → ℕ → Option Callback → Bool → TimerManager
add_timer m now a ms cb recurring =
    let t : Timer = record { recurring = recurring; ms = ms; next = wrap64 (now + ms); cb = cb } in
    add_locked (record m { objs = update m.objs a t }) a

unfoldable pub add_condition_timer : TimerManager → ℕ → ℕ → ℕ → ℕ → ℕ → Bool → TimerManager
add_condition_timer m now a ms cb cond recurring =
    add_timer m now a ms (some (guarded cond cb)) recurring

-- OnTimer: what running a callback calls, where `alive` says which weak pointers still lock.
unfoldable pub on_timer : (ℕ → Bool) → Callback → Option ℕ
on_timer alive (plain cb) = some cb
on_timer alive (guarded cond cb) = if alive cond then some cb else none

unfoldable pub has_timer : TimerManager → Bool
has_timer m = elim m.timers [ [] ↦ false | a ∷ rest ↦ true ]

-- `none` is the undefined behaviour of erasing the end iterator.
unfoldable pub cancel : TimerManager → ℕ → Option (TimerManager × Bool)
cancel m a = elim (m.objs a).cb [
  | none ↦ some (m, false)
  | some f ↦
      if contains a m.timers
      then some (
        record m {
          objs = update m.objs a (record (m.objs a) { cb = none });
          timers = erase a m.timers;
        },
        true,
      )
      else none
]

unfoldable pub refresh : TimerManager → ℕ → ℕ → TimerManager × Bool
refresh m now a =
    if is_some (m.objs a).cb && contains a m.timers
    then (let objs = update m.objs a (record (m.objs a) { next = wrap64 (now + (m.objs a).ms) }) in
        (record m { objs = objs; timers = insert objs a (erase a m.timers) }, true))
    else (m, false)

unfoldable pub reset : TimerManager → ℕ → ℕ → ℕ → Bool → TimerManager × Bool
reset m now a ms from_now =
    if ms == (m.objs a).ms && not from_now
    then (m, true)
    else (if is_some (m.objs a).cb && contains a m.timers
        then (let start : ℕ =
              if from_now then now else wrap64 ((m.objs a).next + 2 ^ 64 - (m.objs a).ms) in
            let objs =
              update m.objs a (record (m.objs a) { ms = ms; next = wrap64 (start + ms) }) in
            (add_locked (record m { objs = objs; timers = erase a m.timers }) a, true))
        else (m, false))

-- getNextTimer: the wait until the first timer, and the cleared flag.
unfoldable pub get_next_timer : TimerManager → ℕ → TimerManager × ℕ
get_next_timer m now = (
  record m { tickled = false },
  elim m.timers [
    | [] ↦ 2 ^ 64 - 1
    | a ∷ rest ↦ if leb (m.objs a).next now then 0 else (m.objs a).next - now
  ],
)

-- `m_previous_time - 60 * 60 * 1000` is a subtraction of uint64_t.
unfoldable pub detect_clock_rollover : TimerManager → ℕ → TimerManager × Bool
detect_clock_rollover m now = (
  record m { previous_time = now },
  ltb now m.previous_time && ltb now (wrap64 (m.previous_time + 2 ^ 64 - 3600000)),
)

-- One expired timer: a recurring one is armed again, any other loses its callback.
unfoldable pub fire_one : ℕ → TimerManager → ℕ → TimerManager
fire_one now m a =
    let t = m.objs a in
    let objs = update m.objs a (record t { next = wrap64 (now + t.ms) }) in
    if t.recurring
    then record m { objs = objs; timers = insert objs a m.timers }
    else record m { objs = update m.objs a (record t { cb = none }) }

-- The loop over the expired timers, which collects their callbacks.
unfoldable pub fire : ℕ → TimerManager → List ℕ → TimerManager × List (Option Callback)
fire now m [] = (m, [])
fire now m (a ∷ rest) =
    let (m', cbs) = fire now (fire_one now m a) rest in (m', (m.objs a).cb ∷ cbs)

-- What stands before now_timer, a Timer at time `now` and address `n`.
abbrev pub before : (ℕ → Timer) → ℕ → ℕ → ℕ → Bool
before objs now n a = ltb (objs a).next now || ((objs a).next == now && ltb a n)

abbrev pub exactly : (ℕ → Timer) → ℕ → ℕ → Bool
exactly objs now a = (objs a).next == now

-- The timers up to lower_bound(now_timer), and then those whose time is exactly now.
abbrev pub expired : (ℕ → Timer) → ℕ → ℕ → List ℕ → List ℕ
expired objs now n ts =
    take_while (before objs now n) ts
    ++ take_while (exactly objs now) (drop_while (before objs now n) ts)

abbrev pub pending : (ℕ → Timer) → ℕ → ℕ → List ℕ → List ℕ
pending objs now n ts = drop_while (exactly objs now) (drop_while (before objs now n) ts)

abbrev pub first_later : TimerManager → ℕ → Bool
first_later m now = elim m.timers [ [] ↦ false | a ∷ rest ↦ ltb now (m.objs a).next ]

-- listExpiredCb; with the clock rolled back every timer expires.
unfoldable pub list_expired_cb : TimerManager → ℕ → ℕ → TimerManager × List (Option Callback)
list_expired_cb m now n =
    if not (has_timer m)
    then (m, [])
    else (let (m', rollover) = detect_clock_rollover m now in
        if not rollover && first_later m now
        then (m', [])
        else (if rollover
            then fire now (record m' { timers = [] }) m.timers
            else fire now (record m' { timers = pending m.objs now n m.timers })
                (expired m.objs now n m.timers)))
