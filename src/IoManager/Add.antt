-- ===== src/IoManager/Add.antt =====
-- addEvent of src/iomanager.cpp, under the invariant of the count.
use cool.Base.{
  ℕ, zero, suc, ◌+◌, ◌-◌, ◌*◌, ◌/◌, ◌≤◌, ◌<◌, ◌≡◌, refl, sym, ap, true, false, List, [], ◌∷◌, ◌++◌,
  Option, none, some, arith, length, get_elem?, set, Bool-cases, inl, inr, is_some, All,
  length-append, ltb, take, get_elem?-set_self,
}
use mathlib.Core.List.{append-nil}
use cool.IoManager.{
  Event, read, write, EventContext, FdContext, IoManager, has, with_event, get_context, put_context,
  tell, add_event, room_for, resize_context, fresh_contexts, stored_context,
}
use cool.IoManager.Pending.{Sound, Armed, registered, count, set-Sound, Armed-get}

fresh_registered : (i n : ℕ) → registered (fresh_contexts i n) ≡ 0
unfolding registered fresh_contexts
fresh_registered i zero = refl
fresh_registered i (suc n) = ground (arith, fresh_registered (suc i) n)

fresh_Armed : (i n : ℕ) → All Armed (fresh_contexts i n)
unfolding fresh_contexts
fresh_Armed i zero = tt
fresh_Armed i (suc n) =
    (((λ k. absurd (ground arith)), λ k. absurd (ground arith)), fresh_Armed (suc i) n)

length-fresh : (i n : ℕ) → length (fresh_contexts i n) ≡ n
unfolding fresh_contexts
length-fresh i zero = refl
length-fresh i (suc n) = ap suc (length-fresh (suc i) n)

registered-append : (cs ds : List FdContext) → registered (cs ++ ds) ≡ registered cs + registered ds
unfolding registered
registered-append [] ds = ground arith
registered-append (c ∷ cs) ds = omega (arith, registered-append cs ds)

Armed-append : (cs ds : List FdContext) → All Armed cs → All Armed ds → All Armed (cs ++ ds)
Armed-append [] ds a b = b
Armed-append (c ∷ cs) ds a b = (a.0, Armed-append cs ds a.1 b)

take_whole : (n : ℕ) (cs : List FdContext) → length cs ≤ n → take n cs ≡ cs
take_whole zero [] h = refl
take_whole (suc n) [] h = refl
take_whole zero (c ∷ cs) h = absurd (omega arith)
take_whole (suc n) (c ∷ cs) h = ap (◌∷◌ c) (take_whole n cs (omega arith))

-- A table of at least two contexts has room for every descriptor after addEvent's resizeContext,
-- the contexts that were there stay, and the new ones have no event.
pub room_for_lem :
    (cs : List FdContext) (fd : ℕ)
    → 2 ≤ length cs
    → (ds : List FdContext) × (room_for cs fd ≡ cs ++ ds)
      × (registered ds ≡ 0)
      × All Armed ds
      × (fd < length (cs ++ ds))
unfolding room_for resize_context
room_for_lem cs fd h = elim (Bool-cases (ltb fd (length cs))) [
  | inl e ↦ (
    [],
    rw e (sym (append-nil cs)),
    unfold registered in refl,
    tt,
    rw (append-nil cs) (ground arith),
  )
  | inr e ↦
      let more : length cs ≤ fd * 3 / 2 = ground arith in
      let n = fd * 3 / 2 - length cs in
      (
        fresh_contexts (length cs) n,
        rw e (rw (take_whole _ cs more)),
        fresh_registered (length cs) n,
        fresh_Armed (length cs) n,
        omega (arith, length-append cs (fresh_contexts (length cs) n), length-fresh (length cs) n),
      )
]

abbrev added : FdContext → Event → Option ℕ → ℕ → ℕ → FdContext
added c e cb s this =
    put_context (record c { events = with_event c.events e }) e
      (stored_context (get_context c e) (some s) cb this)

stored_scheduler :
    (x : EventContext) (cb : Option ℕ) (s this : ℕ)
    → is_some (stored_context x (some s) cb this).scheduler ≡ true
stored_scheduler x none s this = refl
stored_scheduler x (some f) s this = refl

added_lem :
    (c : FdContext) (e : Event) (cb : Option ℕ) (s this : ℕ)
    → Armed c
    → has c.events e ≡ false
    → Armed (added c e cb s this)
      × ((added c e cb s this).events ≡ with_event c.events e)
      × (get_context (added c e cb s this) e ≡ stored_context (get_context c e) (some s) cb this)
      × (count (with_event c.events e) ≡ count c.events + 1)
unfolding put_context get_context
added_lem c read cb s this a h =
    (((λ k. stored_scheduler c.on_read cb s this), a.1), refl, refl, ground arith)
added_lem c write cb s this a h =
    ((a.0, λ k. stored_scheduler c.on_write cb s this), refl, refl, ground arith)

-- The manager after addEvent registered an event with its callback or fiber.
pub record Added (m : IoManager) (fd : ℕ) (e : Event) (cb : Option ℕ) (s this : ℕ) (c : FdContext)
    (m' : IoManager) : Type 0 where
  pub sound : Sound m'
  pub one_more : m'.pending ≡ m.pending + 1
  pub now :
      (c' : FdContext) × (get_elem? m'.contexts fd ≡ some c')
      × (c'.events ≡ with_event c.events e)
      × (get_context c' e ≡ stored_context (get_context c e) (some s) cb this)

-- For an invariant-keeping table of at least two contexts, addEvent on an event that is not yet
-- registered, under a scheduler and with an epoll_ctl that succeeds, makes room for the descriptor,
-- registers the event with its callback or fiber, counts it, and keeps the invariant.
pub add_event-Added :
    (m : IoManager) (fd : ℕ) (e : Event) (cb : Option ℕ) (s this : ℕ) (c : FdContext)
    → Sound m
    → 2 ≤ length m.contexts
    → get_elem? (room_for m.contexts fd) fd ≡ some c
    → has c.events e ≡ false
    → (m' : IoManager) × (add_event m fd e cb (some s) this true ≡ some (m', true))
      × Added m fd e cb s this c m'
unfolding add_event
add_event-Added m fd e cb s this c v h g' k =
    let (ds, q, z, a, l) = room_for_lem m.contexts fd h in
    let g : get_elem? (m.contexts ++ ds) fd ≡ some c = rw q at g' in
    let m1 = record m { contexts = m.contexts ++ ds } in
    let v1 : Sound m1 = record {
      counted = omega (arith, v.counted, registered-append m.contexts ds, z);
      armed = Armed-append m.contexts ds v.armed a;
    } in
    let (w, x, y, n) = added_lem c e cb s this (Armed-get (m.contexts ++ ds) fd c v1.armed g) k in
    let m' = record m {
      contexts = set (room_for m.contexts fd) fd (added c e cb s this);
      pending = m.pending + 1;
      interest = tell m.interest fd (with_event c.events e);
    } in
    let n' : count (added c e cb s this).events ≡ count c.events + 1 = rw x n in
    (
      m',
      rw (add_event, g', k),
      record {
        sound = set-Sound m1 m' fd c (added c e cb s this) v1 g (rw q refl) (omega arith) w;
        one_more = refl;
        now = (
          added c e cb s this,
          rw q (get_elem?-set_self (m.contexts ++ ds) fd (added c e cb s this) l),
          x,
          y,
        );
      },
    )
