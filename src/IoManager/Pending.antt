-- ===== src/IoManager/Pending.antt =====
-- The count of pending events of src/iomanager.cpp against the events of the descriptor contexts.
use cool.Base.{
  ℕ, zero, suc, ◌+◌, ◌-◌, ◌<◌, ◌≡◌, refl, sym, ap, ◌∙◌, Bool, true, List, [], ◌∷◌, ◌++◌, some,
  arith, length, get_elem?, set, if◌then◌else◌, Bool-cases, Option-cases, inl, inr, is_some, All,
  get_elem?-set_self,
}
use cool.Scheduler.{Task}
use mathlib.Core.Path.{subst}
use cool.IoManager.{
  Event, read, write, Events, FdContext, IoManager, has, without_event, get_context, put_context,
  swap_task, trigger_event, tell, del_event, trigger_at, empty_context,
}

abbrev bit : Bool → ℕ
bit b = if b then 1 else 0

-- The events of a mask, and of all the contexts.
abbrev pub count : Events → ℕ
count e = bit e.has_read + bit e.has_write

unfoldable pub registered : List FdContext → ℕ
registered [] = 0
registered (c ∷ cs) = count c.events + registered cs

-- A registered event has the scheduler that will run it.
abbrev pub Armed : FdContext → Type 0
Armed c =
    (c.events.has_read ≡ true → is_some c.on_read.scheduler ≡ true)
    × (c.events.has_write ≡ true → is_some c.on_write.scheduler ≡ true)

-- m_pendingEventCount is the number of the registered events, each of which can be triggered.
pub record Sound (m : IoManager) : Type 0 where
  pub counted : m.pending ≡ registered m.contexts
  pub armed : All Armed m.contexts

pub registered-set :
    (cs : List FdContext) (i : ℕ) (c d : FdContext)
    → get_elem? cs i ≡ some c
    → registered (set cs i d) + count c.events ≡ registered cs + count d.events
unfolding registered
registered-set [] i c d h = absurd (cc)
registered-set (x ∷ cs) zero c d h = let e : x ≡ c = cc in rw e (omega arith)
registered-set (x ∷ cs) (suc i) c d h = omega (arith, registered-set cs i c d h)

pub Armed-set :
    (cs : List FdContext) (i : ℕ) (d : FdContext) → All Armed cs → Armed d → All Armed (set cs i d)
Armed-set [] i d a b = tt
Armed-set (x ∷ cs) zero d a b = (b, a.1)
Armed-set (x ∷ cs) (suc i) d a b = (a.0, Armed-set cs i d a.1 b)

pub Armed-get :
    (cs : List FdContext) (i : ℕ) (c : FdContext) → All Armed cs → get_elem? cs i ≡ some c → Armed c
Armed-get [] i c a h = absurd (cc)
Armed-get (x ∷ cs) zero c a h = let e : x ≡ c = cc in rw (← e) a.0
Armed-get (x ∷ cs) (suc i) c a h = Armed-get cs i c a.1 h

get_elem?-lt :
    (cs : List FdContext) (i : ℕ) (c : FdContext) → get_elem? cs i ≡ some c → i < length cs
get_elem?-lt [] i c h = absurd (cc)
get_elem?-lt (x ∷ cs) zero c h = omega arith
get_elem?-lt (x ∷ cs) (suc i) c h = omega (arith, get_elem?-lt cs i c h)

-- A context in place of another at the same descriptor, and the change of the count.
pub set-Sound :
    (m m' : IoManager) (fd : ℕ) (c d : FdContext)
    → Sound m
    → get_elem? m.contexts fd ≡ some c
    → m'.contexts ≡ set m.contexts fd d
    → m'.pending + count c.events ≡ m.pending + count d.events
    → Armed d
    → Sound m'
set-Sound m m' fd c d v h e n a = record {
  counted = rw e (omega (arith, v.counted, registered-set m.contexts fd c d h));
  armed = rw e (Armed-set m.contexts fd d v.armed a);
}

-- A registered event is triggered: it is gone, the rest of the mask stays, and the count fits.
pub record Triggered (m : IoManager) (fd : ℕ) (c : FdContext) (e : Event) (m' : IoManager)
    : Type 0 where
  pub sound : Sound m'
  pub now :
      (c' : FdContext) × (get_elem? m'.contexts fd ≡ some c')
      × (c'.events ≡ without_event c.events e)
  pub queued :
      (s : ℕ) × (t : Task) × (m'.scheduled ≡ m.scheduled ++ (s, t) ∷ [])
      × ((get_context c e).scheduler ≡ some s)
      × (t ≡ (swap_task (get_context c e)).0)

without_count : (e : Events) (v : Event) → has e v ≡ true → count (without_event e v) + 1 ≡ count e
without_count e read h = ground arith
without_count e write h = ground arith

with_scheduler :
    (c : FdContext) (e : Event)
    → Armed c
    → has c.events e ≡ true
    → is_some (get_context c e).scheduler ≡ true
unfolding get_context
with_scheduler c read a h = a.0 h
with_scheduler c write a h = a.1 h

abbrev triggered_context : FdContext → Event → FdContext
triggered_context c e =
    put_context (record c { events = without_event c.events e }) e (swap_task (get_context c e)).1

trigger_event_lem :
    (c : FdContext) (e : Event)
    → Armed c
    → has c.events e ≡ true
    → (s : ℕ) × (d : FdContext) × (trigger_event c e
        ≡ some (d, (s, (swap_task (get_context c e)).0)))
      × ((get_context c e).scheduler ≡ some s)
      × (d.events ≡ without_event c.events e)
      × Armed d
unfolding trigger_event get_context put_context
trigger_event_lem c read a h = elim (Option-cases c.on_read.scheduler) [
  | inl n ↦ absurd (ground (arith, a.0))
  | inr (s, n) ↦
      (s, triggered_context c read, rw (n, h), n, refl, ((λ k. absurd (ground arith)), a.1))
]
trigger_event_lem c write a h = elim (Option-cases c.on_write.scheduler) [
  | inl n ↦ absurd (ground (arith, a.1))
  | inr (s, n) ↦
      (s, triggered_context c write, rw (n, h), n, refl, (a.0, λ k. absurd (ground arith)))
]

pub trigger_at-Triggered :
    (m : IoManager) (fd : ℕ) (c : FdContext) (e : Event)
    → Sound m
    → get_elem? m.contexts fd ≡ some c
    → has c.events e ≡ true
    → (m' : IoManager) × (trigger_at m fd e ≡ some m') × Triggered m fd c e m'
unfolding trigger_at
trigger_at-Triggered m fd c e v h k =
    let (s, d, f, t, u, a) = trigger_event_lem c e (Armed-get m.contexts fd c v.armed h) k in
    let n : count d.events + 1 ≡ count c.events =
      ap (λ i. count i + 1) u ∙ without_count c.events e k in
    let r = registered-set m.contexts fd c d h in
    let m' = record m {
      contexts = set m.contexts fd d;
      pending = m.pending - 1;
      scheduled = m.scheduled ++ (s, (swap_task (get_context c e)).0) ∷ [];
    } in
    (
      m',
      rw (trigger_at, h, f),
      record {
        sound = set-Sound m m' fd c d v h refl (omega (arith, v.counted)) a;
        now = (d, get_elem?-set_self m.contexts fd d (get_elem?-lt m.contexts fd c h), u);
        queued = (s, _, refl, t, refl);
      },
    )

deleted_Armed :
    (c : FdContext) (e : Event)
    → Armed c
    → Armed (put_context (record c { events = without_event c.events e }) e empty_context)
unfolding put_context
deleted_Armed c read a = ((λ k. absurd (ground arith)), a.1)
deleted_Armed c write a = (a.0, λ k. absurd (ground arith))

deleted_events :
    (c : FdContext) (e : Event)
    → (put_context (record c { events = without_event c.events e }) e empty_context).events
      ≡ without_event c.events e
unfolding put_context
deleted_events c read = refl
deleted_events c write = refl

-- delEvent keeps the invariant on every branch: the count is that of the registered events, and
-- each of them has its scheduler.
pub del_event-Sound :
    (m : IoManager) (fd : ℕ) (e : Event) (ctl_ok : Bool)
    → Sound m
    → Sound (del_event m fd e ctl_ok).0
unfolding del_event
del_event-Sound m fd e ctl_ok v = elim (Option-cases (get_elem? m.contexts fd)) [
  | inl n ↦ rw (del_event, n) v
  | inr (c, s) ↦ elim (Bool-cases (has c.events e)) [
    | inr f ↦ rw (del_event, s, f) v
    | inl t ↦ elim (Bool-cases ctl_ok) [
      | inr g ↦ subst (λ (b : Bool). Sound (del_event m fd e b).0) (sym g) (rw (del_event, s, t) v)
      | inl g ↦
          let d = put_context (record c { events = without_event c.events e }) e empty_context in
          let n : count d.events + 1 ≡ count c.events =
            ap (λ i. count i + 1) (deleted_events c e) ∙ without_count c.events e t in
          let r = registered-set m.contexts fd c d s in
          rw (del_event, s, t, g)
            (set-Sound m
              (record m {
                contexts = set m.contexts fd d;
                pending = m.pending - 1;
                interest = tell m.interest fd (without_event c.events e);
              })
              fd c d v s refl (omega (arith, v.counted))
              (deleted_Armed c e (Armed-get m.contexts fd c v.armed s)))
    ]
  ]
]
