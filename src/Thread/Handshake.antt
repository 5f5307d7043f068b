-- ===== src/Thread/Handshake.antt =====
-- What the constructor of a Thread may rely on when it returns (src/thread.cpp).
use cool.Base.{
  ℕ, ◌+◌, ◌≤◌, ltb, Bool, true, false, [], ◌∷◌, none, some, ◌≡◌, refl, take, arith, if◌then◌else◌,
}
use cool.Base.Text.{Text, c_str}
use cool.Thread.Start.{
  Caller, waiting, returned, Runner, at_this, at_name, at_id, at_setname, at_swap, at_notify,
  at_call, in_call, done, Starting, thread_name, create, run_step, rename, Step, runs, waits,
  renames, interrupted, Reach, start, later,
}

-- How many statements of run are behind the thread.
abbrev pub rank : Runner → ℕ
rank at_this = 0
rank at_name = 1
rank at_id = 2
rank at_setname = 3
rank at_swap = 4
rank at_notify = 5
rank at_call = 6
rank in_call = 7
rank done = 8

abbrev passed : Caller → ℕ
passed waiting = 0
passed returned = 1

module _ (signals : Bool) (tid cb : ℕ) (name : Text) where
  pub record Inv (s : Starting) : Type 0 where
    pub named : rank s.runner ≤ 6 → s.thread.name ≡ thread_name name
    pub id_set : 3 ≤ rank s.runner → s.thread.id ≡ some tid
    pub shown : 4 ≤ rank s.runner → s.system_name ≡ c_str (take 15 (thread_name name))
    pub kept : rank s.runner ≤ 4 → s.thread.cb ≡ some cb
    pub unswapped : rank s.runner ≤ 4 → s.cb ≡ none
    pub emptied : 5 ≤ rank s.runner → s.thread.cb ≡ none
    pub swapped : 5 ≤ rank s.runner → s.cb ≡ some cb
    pub uncalled : rank s.runner ≤ 6 → s.called ≡ []
    pub ran : 7 ≤ rank s.runner → s.called ≡ cb ∷ []
    pub counted :
        signals ≡ false
        → s.thread.semaphore + passed s.caller ≡ (if ltb 5 (rank s.runner) then 1 else 0)

  Inv-create : (pthread : ℕ) → Inv (create cb name pthread)
  unfolding create
  Inv-create pthread = ground arith

  Inv-run_step : (s : Starting) → Inv s → Inv (run_step tid s)
  unfolding run_step
  Inv-run_step s v = ground arith

  Inv-rename :
      (s : Starting) (new_name : Text) → s.runner ≡ in_call → Inv s → Inv (rename new_name s)
  unfolding rename
  Inv-rename s new_name e v = ground arith

  Inv-Step : {s t : Starting} → Step signals tid s t → Inv s → Inv t
  Inv-Step {s} runs v = Inv-run_step s v
  Inv-Step {s} (renames new_name e) v = Inv-rename s new_name e v
  Inv-Step (waits w n) v = ground arith
  Inv-Step (interrupted e w) v = ground arith

  pub Inv-reach : {pthread : ℕ} {s : Starting} → Reach signals tid cb name pthread s → Inv s
  Inv-reach {pthread} start = Inv-create pthread
  Inv-reach (later r st) = Inv-Step st (Inv-reach r)

-- Without signals, whenever the constructor has returned, however the two threads interleave, run has
-- posted the semaphore and has only the call of the callback left or behind it; m_id is the id of the
-- new thread, the system shows the first 15 bytes of the name, and m_cb has been moved out, into the
-- callback that run calls. The callback may rename the thread any number of times.
pub returned_started :
    {tid cb pthread : ℕ} {name : Text} {s : Starting}
    → Reach false tid cb name pthread s
    → s.caller ≡ returned
    → (6 ≤ rank s.runner)
      × (s.thread.id ≡ some tid)
      × (s.system_name ≡ c_str (take 15 (thread_name name)))
      × (s.thread.cb ≡ none)
      × (s.cb ≡ some cb)
returned_started {tid} {cb} {pthread} {name} {s} r e =
    let posted : 6 ≤ rank s.runner = ground (arith, v.counted refl) in
    (
      posted,
      v.id_set (omega (arith, posted)),
      v.shown (omega (arith, posted)),
      v.emptied (omega (arith, posted)),
      v.swapped (omega (arith, posted)),
    )
  where
    v : Inv false tid cb name s
    v = Inv-reach false tid cb name r

-- The callback is called exactly once, with or without signals, once run has reached its call, and
-- not before.
pub called_once :
    {signals : Bool} {tid cb pthread : ℕ} {name : Text} {s : Starting}
    → Reach signals tid cb name pthread s
    → s.called ≡ (if ltb 6 (rank s.runner) then cb ∷ [] else [])
called_once {signals} {tid} {cb} {pthread} {name} {s} r = ground (arith, v.uncalled, v.ran)
  where
    v : Inv signals tid cb name s
    v = Inv-reach signals tid cb name r

-- A signal breaks the handshake: the constructor returns while m_id is still -1 and m_cb is full.
pub interrupted_unset :
    (tid cb pthread : ℕ) (name : Text)
    → (s : Starting) × Reach true tid cb name pthread s
      × (s.caller ≡ returned)
      × (s.thread.id ≡ none)
      × (s.thread.cb ≡ some cb)
unfolding create
interrupted_unset tid cb pthread name = (_, later start (interrupted refl refl), refl, refl, refl)
