-- ===== src/Timer/Runs.antt =====
-- Two timers of src/timer.cpp in the set, and the theorems at them.
use cool.Base.{refl, true, false, [], none, some}
use cool.Timer.{
  Timer, TimerManager, plain, add_timer, add_locked, insert, contains, list_expired_cb,
  detect_clock_rollover,
}
use cool.Timer.Invariant.{Inv, add_timer-Inv}
use cool.Timer.Cut.{due, later}
use cool.Timer.Expiry.{list_expired_cb-Inv}
use cool.Timer.Delivery.{Expires, list_expired_cb-Expires}

abbrev no_timer : Timer
no_timer = record { recurring = false; ms = 0; next = 0; cb = none }

abbrev no_manager : TimerManager
no_manager = record {
  objs = λ _. no_timer;
  timers = [];
  tickled = false;
  previous_time = 4000000;
  front_inserts = 0;
}

-- A recurring timer at address 5 and another at address 3.
abbrev one_timer : TimerManager
one_timer = add_timer no_manager 4000000 5 100 (some (plain 1)) true

abbrev two_timers : TimerManager
two_timers = add_timer one_timer 4000000 3 300 (some (plain 2)) false

no_manager-Inv : Inv no_manager
no_manager-Inv = record { sorted = tt; armed = λ a e. cc }

one_timer-Inv : Inv one_timer
unfolding contains
one_timer-Inv = add_timer-Inv no_manager 4000000 5 100 (some (plain 1)) true no_manager-Inv refl

two_timers-Inv : Inv two_timers
unfolding add_timer add_locked insert contains
two_timers-Inv = add_timer-Inv one_timer 4000000 3 300 (some (plain 2)) false one_timer-Inv refl

list_expired_cb-Expires_example :
    Expires two_timers 4000150
      (due two_timers.objs 4000150 two_timers.timers)
      (later two_timers.objs 4000150 two_timers.timers)
      (list_expired_cb two_timers 4000150 9)
unfolding detect_clock_rollover add_timer add_locked insert
list_expired_cb-Expires_example = list_expired_cb-Expires two_timers 4000150 9 two_timers-Inv refl

list_expired_cb-Inv_example : Inv (list_expired_cb two_timers 4000400 9).0
list_expired_cb-Inv_example = list_expired_cb-Inv two_timers 4000400 9 two_timers-Inv
