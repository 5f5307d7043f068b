-- ===== src/IoManager/Loop.antt =====
-- The cancelling and the handling of events in src/iomanager.cpp, under the invariant of the count.
use cool.Base.{
  ℕ, ◌+◌, ◌≡◌, refl, Bool, true, false, not, ◌&&◌, ◌||◌, [], ◌∷◌, Option, none, some, arith, length,
  get_elem?, if◌then◌else◌, Bool-cases, Option-cases, inl, inr, length-append,
}
use cool.IoManager.{
  Event, read, write, Events, FdContext, IoManager, has, with_event, without_event, no_events,
  any_event, get_context, tell, trigger_event, trigger_at, cancel_event, trigger_if, cancel_all,
}
use cool.IoManager.Pending.{Sound, Triggered, count, trigger_at-Triggered}
use cool.IoManager.Idle.{Ready, real_events, meet, minus, handle_ready}

same_Sound : (m : IoManager) (i : ℕ → Option Events) → Sound m → Sound (record m { interest = i })
same_Sound m i v = record { counted = v.counted; armed = v.armed }

-- Under the invariant, cancelEvent on a registered event with an epoll_ctl that succeeds answers
-- true without a failed ASSERT, triggers exactly that event, and keeps the invariant.
pub cancel_event-Triggered :
    (m : IoManager) (fd : ℕ) (c : FdContext) (e : Event)
    → Sound m
    → get_elem? m.contexts fd ≡ some c
    → has c.events e ≡ true
    → (m' : IoManager) × (cancel_event m fd e true ≡ some (m', true)) × Triggered m fd c e m'
unfolding cancel_event
cancel_event-Triggered m fd c e v h k =
    let m1 = record m { interest = tell m.interest fd (without_event c.events e) } in
    let (m', f, t) = trigger_at-Triggered m1 fd c e (same_Sound m _ v) h k in
    (m', rw (cancel_event, h, k, f), record { sound = t.sound; now = t.now; queued = t.queued })

-- Triggering the events of a mask that are registered, reads first.
pub trigger_both :
    (m : IoManager) (fd : ℕ) (c : FdContext) (r w : Bool)
    → Sound m
    → get_elem? m.contexts fd ≡ some c
    → (r ≡ true → c.events.has_read ≡ true)
    → (w ≡ true → c.events.has_write ≡ true)
    → (m' : IoManager) × (trigger_if w write fd (trigger_if r read fd (some m)) ≡ some m')
      × Sound m'
      × ((c' : FdContext) × (get_elem? m'.contexts fd ≡ some c')
          × (c'.events.has_read ≡ (c.events.has_read && not r))
          × (c'.events.has_write ≡ (c.events.has_write && not w)))
      × (length m'.scheduled ≡ length m.scheduled + ((if r then 1 else 0) + (if w then 1 else 0)))
trigger_both m fd c false false v h p q =
    (m, refl, v, (c, h, ground arith, ground arith), omega arith)
trigger_both m fd c true false v h p q =
    let (m', f, t) = trigger_at-Triggered m fd c read v h (p refl) in
    let (c', g, u) = t.now in
    let (s, k, l, _, _) = t.queued in
    (
      m',
      rw f,
      t.sound,
      (c', g, rw u (ground arith), rw u (ground arith)),
      rw l (omega (arith, length-append m.scheduled ((s, k) ∷ []))),
    )
trigger_both m fd c false true v h p q =
    let (m', f, t) = trigger_at-Triggered m fd c write v h (q refl) in
    let (c', g, u) = t.now in
    let (s, k, l, _, _) = t.queued in
    (
      m',
      rw f,
      t.sound,
      (c', g, rw u (ground arith), rw u (ground arith)),
      rw l (omega (arith, length-append m.scheduled ((s, k) ∷ []))),
    )
trigger_both m fd c true true v h p q =
    let (m1, f, t) = trigger_at-Triggered m fd c read v h (p refl) in
    let (c1, g, u) = t.now in
    let (s, k, l, _, _) = t.queued in
    let (m', f', t') = trigger_at-Triggered m1 fd c1 write t.sound g (rw u (q refl)) in
    let (c', g', u') = t'.now in
    let (s', k', l', _, _) = t'.queued in
    (
      m',
      rw (f, f'),
      t'.sound,
      (c', g', rw (u', u) (ground arith), rw u' (ground arith)),
      rw (l', length-append, l) (omega (arith, length-append m.scheduled ((s, k) ∷ []))),
    )

-- Under the invariant, cancekAll on a descriptor with events and an epoll_ctl that succeeds answers
-- true, schedules one task for each of them, leaves none registered, and keeps the invariant.
pub cancel_all_lem :
    (m : IoManager) (fd : ℕ) (c : FdContext)
    → Sound m
    → get_elem? m.contexts fd ≡ some c
    → any_event c.events ≡ true
    → (m' : IoManager) × (cancel_all m fd true ≡ some (m', true))
      × Sound m'
      × ((c' : FdContext) × (get_elem? m'.contexts fd ≡ some c') × (c'.events ≡ no_events))
      × (length m'.scheduled ≡ length m.scheduled + count c.events)
unfolding cancel_all
cancel_all_lem m fd c v h k =
    let m1 = record m { interest = tell m.interest fd no_events } in
    let (m', f, v', (c', g, r, w), n) =
      trigger_both m1 fd c c.events.has_read c.events.has_write (same_Sound m _ v) h (λ p. p)
        (λ p. p) in
    (m', rw (cancel_all, h, k, f), v', (c', g, ground arith), n)

-- Under the invariant, an epoll_event that reports registered events alone, with an epoll_ctl that
-- succeeds, schedules one task for each of them, leaves the rest of the mask registered, and keeps
-- the invariant.
pub handle_ready_lem :
    (m : IoManager) (r : Ready) (c : FdContext)
    → Sound m
    → get_elem? m.contexts r.fd ≡ some c
    → ((real_events r).has_read ≡ true → c.events.has_read ≡ true)
    → ((real_events r).has_write ≡ true → c.events.has_write ≡ true)
    → (m' : IoManager) × (handle_ready m r true ≡ some m')
      × Sound m'
      × ((c' : FdContext) × (get_elem? m'.contexts r.fd ≡ some c')
          × (c'.events ≡ minus c.events (real_events r)))
      × (length m'.scheduled ≡ length m.scheduled + count (real_events r))
unfolding handle_ready
handle_ready_lem m r c v h p q = elim (Bool-cases (any_event (meet c.events (real_events r)))) [
  | inr e ↦ (m, rw (handle_ready, h, e), v, (c, h, ground arith), ground arith)
  | inl e ↦
      let m1 = record m { interest = tell m.interest r.fd (minus c.events (real_events r)) } in
      let (m', f, v', (c', g, x, y), n) =
        trigger_both m1 r.fd c (real_events r).has_read (real_events r).has_write (same_Sound m _ v)
          h p q in
      (m', rw (handle_ready, h, e, f), v', (c', g, ground arith), n)
]

or_true : (b : Bool) → (b || true) ≡ true
or_true true = refl
or_true false = refl

trigger_unregistered :
    (m : IoManager) (fd : ℕ) (c : FdContext) (e : Event)
    → get_elem? m.contexts fd ≡ some c
    → has c.events e ≡ false
    → trigger_at m fd e ≡ none
unfolding trigger_at trigger_event
trigger_unregistered m fd c e h k = elim (Option-cases (get_context c e).scheduler) [
  | inl n ↦ rw (trigger_at, h, n)
  | inr (s, n) ↦ rw (trigger_at, h, n, k)
]

-- Under the invariant, EPOLLERR or EPOLLHUP on a descriptor with exactly one registered event, with
-- an epoll_ctl that succeeds, fails the ASSERT of triggerEvent: both events are triggered.
pub handle_ready_aborts :
    (m : IoManager) (r : Ready) (c : FdContext) (e : Event)
    → Sound m
    → get_elem? m.contexts r.fd ≡ some c
    → r.failed ≡ true
    → c.events ≡ with_event no_events e
    → handle_ready m r true ≡ none
unfolding handle_ready
handle_ready_aborts m r c read v h k n =
    let m1 = record m { interest = tell m.interest r.fd no_events } in
    let (m', f, t) = trigger_at-Triggered m1 r.fd c read (same_Sound m _ v) h (rw n) in
    let (c', g, u) = t.now in
    let off : has c'.events write ≡ false = rw (u, n) in
    rw (handle_ready, h, n, k, or_true r.epollin, or_true r.epollout, f)
      (trigger_unregistered m' r.fd c' write g off)
handle_ready_aborts m r c write v h k n =
    let m1 = record m { interest = tell m.interest r.fd no_events } in
    rw (handle_ready, h, n, k, or_true r.epollin, or_true r.epollout)
      (rw (trigger_unregistered m1 r.fd c read h (rw n)))
