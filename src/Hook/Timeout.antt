-- ===== src/Hook/Timeout.antt =====
-- The timeout of a call behind do_io of src/hook.cpp, and the invariants of the two managers over a wait.
use cool.Base.{
  ℕ, ◌≤◌, ◌≡◌, refl, ap, ◌∙◌, Bool, true, false, List, ◌∷◌, none, some, ◌==◌, if◌then◌else◌,
  Bool-cases, inl, inr, length, get_elem?,
}
use cool.Timer.{contains, add_condition_timer}
use cool.Timer.Invariant.{Inv, add_timer-Inv, cancel_lem}
use cool.IoManager.{
  Events, Event, FdContext, read, write, has, room_for, without_event, with_event, add_event,
}
use cool.IoManager.Pending.{Sound}
use cool.IoManager.Add.{add_event-Added}
use cool.IoManager.Loop.{cancel_event-Triggered}
use cool.Fd.{no_timeout}
use cool.Hook.{Answer, failed, eagain, etimedout, is_failed, World, done, ◌>>=◌, check}
use cool.Hook.Safety.{Hooked, timeout_of, do_io-retry}
use cool.Hook.Io.{
  Op, Wake, call, is_cancelled, wait_for, register, sleep_until, arm, disarm, on_timeout, retry,
  do_io,
}

-- The event of the descriptor is registered or is not, in a table that fits its count and beside
-- timers in order.
pub record Registered (registered : Bool) (fd : ℕ) (e : Event) (w : World) : Type 0 where
  pub sound : Sound w.iom
  pub inv : Inv w.timers
  pub event :
      (c : FdContext) × (get_elem? w.iom.contexts fd ≡ some c) × (has c.events e ≡ registered)

-- The wait can begin: the event is not registered, a scheduler runs, and the new Timer is not yet in
-- the set.
pub record CanWait (fd : ℕ) (e : Event) (w : World) (k : Wake) : Type 0 where
  pub sound : Sound w.iom
  pub inv : Inv w.timers
  pub two : 2 ≤ length w.iom.contexts
  pub free :
      (c : FdContext) × (get_elem? (room_for w.iom.contexts fd) fd ≡ some c)
      × (has c.events e ≡ false)
  pub scheduled : (s : ℕ) × (w.scheduler ≡ some s)
  pub fresh : contains k.address w.timers.timers ≡ false

-- epoll_ctl succeeds, the timeout is over before the descriptor is ready, and what other fibers do
-- keeps the invariants and leaves the event registered.
pub record TimesOut (fd : ℕ) (e : Event) (k : Wake) : Type 0 where
  pub ctl_ok : k.ctl_ok ≡ true
  pub cancel_ok : k.cancel_ok ≡ true
  pub timed_out : k.timed_out ≡ true
  pub others : (w : World) → Registered true fd e w → Registered true fd e (k.others w)

has-with_event : (es : Events) (e : Event) → has (with_event es e) e ≡ true
has-with_event es read = refl
has-with_event es write = refl

has-without_event : (es : Events) (e : Event) → has (without_event es e) e ≡ false
has-without_event es read = refl
has-without_event es write = refl

armed_lem :
    (to : ℕ) (w : World) (k : Wake)
    → Inv w.timers
    → contains k.address w.timers.timers ≡ false
    → Inv (arm to w k).timers × ((arm to w k).iom ≡ w.iom) × ((arm to w k).scheduler ≡ w.scheduler)
unfolding arm add_condition_timer
armed_lem to w k v f = elim (Bool-cases (to == no_timeout)) [
  | inl e ↦ rw e (v, refl, refl)
  | inr e ↦ rw e (add_timer-Inv w.timers _ _ _ _ _ v f, refl, refl)
]

disarmed_lem :
    (to : ℕ) (w : World) (k : Wake) (b : Bool) (fd : ℕ) (e : Event)
    → Registered b fd e w
    → (w' : World) × (disarm to w k ≡ done w') × Registered b fd e w'
unfolding disarm
disarmed_lem to w k b fd e v = elim (Bool-cases (to == no_timeout)) [
  | inl p ↦ (w, rw (disarm, p), v)
  | inr p ↦
      let (ts, q, i, n) = cancel_lem w.timers k.address v.inv in
      (
        record w { timers = ts },
        rw (disarm, p, q),
        record { sound = v.sound; inv = i; event = v.event },
      )
]

on_timeout_lem :
    (fd : ℕ) (e : Event) (w : World) (k : Wake)
    → k.cancel_ok ≡ true
    → Registered true fd e w
    → (w' : World) × (on_timeout fd e w k ≡ done w') × Registered false fd e w'
unfolding on_timeout
on_timeout_lem fd e w k o v =
    let (c, g, h) = v.event in
    let (m, q, t) = cancel_event-Triggered w.iom fd c e v.sound g h in
    let (d, s, u) = t.now in
    (
      record w { iom = m },
      rw (on_timeout, o, q),
      record { sound = t.sound; inv = v.inv; event = (d, s, rw u (has-without_event c.events e)) },
    )

register_lem :
    (fd : ℕ) (e : Event) (w : World) (ctl_ok : Bool) (s : ℕ) (c : FdContext)
    → ctl_ok ≡ true
    → w.scheduler ≡ some s
    → Sound w.iom
    → Inv w.timers
    → 2 ≤ length w.iom.contexts
    → get_elem? (room_for w.iom.contexts fd) fd ≡ some c
    → has c.events e ≡ false
    → (w' : World) × (register fd e w ctl_ok ≡ done (w', true)) × Registered true fd e w'
unfolding register
register_lem fd e w false s c o r v i l g f = absurd (cc)
register_lem fd e w true s c o r v i l g f =
    let (m, x, a) = add_event-Added w.iom fd e none s w.fiber c v l g f in
    let (d, h, y, z) = a.now in
    let q : add_event w.iom fd e none w.scheduler w.fiber true ≡ some (m, true) =
      ap (λ t. add_event w.iom fd e none t w.fiber true) r ∙ x in
    (
      record w { iom = m },
      ap (λ o. check o >>= (λ x. done (record w { iom = x.0 }, x.1))) q,
      record { sound = a.sound; inv = i; event = (d, h, rw y (has-with_event c.events e)) },
    )

sleep_until_lem :
    (fd : ℕ) (e : Event) (to : ℕ) (w : World) (k : Wake)
    → (to == no_timeout) ≡ false
    → TimesOut fd e k
    → Registered true fd e w
    → (w' : World) × (sleep_until fd e to w k true ≡ done w') × Registered false fd e w'
unfolding sleep_until
sleep_until_lem fd e to w k n t r =
    let (w', y, r') = on_timeout_lem fd e (k.others w) k t.cancel_ok (t.others w r) in
    let c : is_cancelled to k ≡ true = rw (n, t.timed_out) refl in
    (w', ap (λ b. if b then on_timeout fd e (k.others w) k else done (k.others w)) c ∙ y, r')

-- A wait that times out ends with the event gone and both invariants kept.
wait_for_lem :
    (fd : ℕ) (e : Event) (to : ℕ) (w : World) (k : Wake)
    → (to == no_timeout) ≡ false
    → CanWait fd e w k
    → TimesOut fd e k
    → (w' : World) × (wait_for fd e to w k ≡ done (w', true)) × Registered false fd e w'
unfolding wait_for
wait_for_lem fd e to w k n v t =
    let (i, p, q) = armed_lem to w k v.inv v.fresh in
    let (s, r) = v.scheduled in
    let (c, g, f) = v.free in
    let (w2, x, r2) =
      register_lem fd e (arm to w k) k.ctl_ok s c t.ctl_ok (q ∙ r) (rw p v.sound) i (rw p v.two)
        (rw p g) f in
    let (w3, y, r3) = sleep_until_lem fd e to w2 k n t r2 in
    let (w4, z, r4) = disarmed_lem to w3 k false fd e r3 in
    (
      w4,
      ap
            (λ o. o >>= (λ x.
              sleep_until fd e to x.0 k x.1 >>= (λ w3. disarm to w3 k >>= (λ w4. done (w4, x.1)))))
            x
          ∙ ap (λ o. o >>= (λ w3. disarm to w3 k >>= (λ w4. done (w4, true)))) y
          ∙ ap (λ o. o >>= (λ w4. done (w4, true))) z,
      r4,
    )

-- With the hooks on, a call on an open socket that its user left blocking, with a finite timeout,
-- that first answers EAGAIN, EINTR aside, answers ETIMEDOUT when the timeout is over before the
-- descriptor is ready; then the event is unregistered, the count of pending events is right and the
-- timers are in order. It is assumed that this held before, that a scheduler runs and the table has two
-- contexts, that the event was not registered and the Timer is new, that epoll_ctl succeeds, and
-- that other fibers keep the invariants and leave the event registered, whatever else they do.
pub do_io-TimesOut :
    (op : Op) (w : World) (answers rest : List Answer) (k : Wake) (ks : List Wake) (a : Answer)
    → Hooked w op.fd
    → (timeout_of w op == no_timeout) ≡ false
    → call answers ≡ some (a, rest)
    → is_failed eagain a ≡ true
    → CanWait op.fd op.event w k
    → TimesOut op.fd op.event k
    → (w' : World) × (do_io op w answers (k ∷ ks) ≡ done (w', failed etimedout))
      × Registered false op.fd op.event w'
unfolding retry
do_io-TimesOut op w answers rest k ks a v n g e c t =
    let (w', y, r) = wait_for_lem op.fd op.event (timeout_of w op) w k n c t in
    (w', do_io-retry op w answers (k ∷ ks) v ∙ rw (retry, g, e, y, n, t.timed_out), r)
