-- ===== src/Thread/Start.antt =====
-- Thread::Thread and Thread::run (src/thread.cpp) as two interleaved threads, one statement at a
-- time. pthread_create has given the new thread its id `tid`; `none` for m_id is -1 and for m_cb the
-- empty function. sem_wait may return early with EINTR, and then so does Semaphore::wait.
use cool.Base.{
  ℕ, suc, Bool, true, false, List, [], ◌∷◌, ◌++◌, Option, none, some, ◌≡◌, take, if◌then◌else◌,
}
use cool.Base.Text.{Text, codes, c_str}

pub record Thread : Type 0 where
  pub id : Option ℕ
  pub thread : ℕ
  pub cb : Option ℕ
  pub name : Text
  -- The count of m_semaphore.
  pub semaphore : ℕ

-- The next statement of the constructor.
pub data Caller : Type 0 where
  waiting returned : Caller

-- The next statement of run.
pub data Runner : Type 0 where
  at_this at_name at_id at_setname at_swap at_notify at_call in_call done : Runner

-- The two threads, the thread_local variables of the new one, the name that the system shows for it,
-- the local cb of run, and the callbacks that have been called.
pub record Starting : Type 0 where
  pub thread : Thread
  pub caller : Caller
  pub runner : Runner
  pub t_thread : Bool
  pub t_thread_name : Text
  pub system_name : Text
  pub cb : Option ℕ
  pub called : List ℕ

abbrev unknown : Text
unknown = codes "UNKNOWN"

abbrev pub thread_name : Text → Text
thread_name [] = unknown
thread_name (c ∷ s) = c ∷ s

-- The constructor up to m_semaphore.wait, where pthread_create has stored `pthread`.
unfoldable pub create : ℕ → Text → ℕ → Starting
create cb name pthread = record {
  thread = record {
    id = none;
    thread = pthread;
    cb = some cb;
    name = thread_name name;
    semaphore = 0;
  };
  caller = waiting;
  runner = at_this;
  t_thread = false;
  t_thread_name = unknown;
  system_name = [];
  cb = none;
  called = [];
}

-- The steps of run, by the statement.
unfoldable pub run_step : ℕ → Starting → Starting
run_step tid s = elim s.runner [
  | at_this ↦ record s { t_thread = true; runner = at_name }
  | at_name ↦ record s { t_thread_name = s.thread.name; runner = at_id }
  | at_id ↦ record s { thread = record s.thread { id = some tid }; runner = at_setname }
  | at_setname ↦ record s { system_name = c_str (take 15 s.thread.name); runner = at_swap }
  | at_swap ↦ record s {
    cb = s.thread.cb;
    thread = record s.thread { cb = s.cb };
    runner = at_notify;
  }
  | at_notify ↦ record s {
    thread = record s.thread { semaphore = suc s.thread.semaphore };
    runner = at_call;
  }
  | at_call ↦ record s {
    called = elim s.cb [ none ↦ s.called | some cb ↦ s.called ++ cb ∷ [] ];
    runner = in_call;
  }
  | in_call ↦ record s { runner = done }
  | done ↦ s
]

-- Thread::SetName in the new thread.
unfoldable pub rename : Text → Starting → Starting
rename name s = record s {
  thread = if s.t_thread then record s.thread { name = name } else s.thread;
  t_thread_name = name;
}

-- A step of the constructor or of run, or a SetName in the callback; `signals` allows EINTR.
pub data Step (signals : Bool) (tid : ℕ) (s : Starting) : Starting → Type 0 where
  runs : Step signals tid s (run_step tid s)
  waits :
      {n : ℕ}
      → s.caller ≡ waiting
      → s.thread.semaphore ≡ suc n
      → Step signals tid s
          (record s { caller = returned; thread = record s.thread { semaphore = n } })
  renames : (new_name : Text) → s.runner ≡ in_call → Step signals tid s (rename new_name s)
  interrupted :
      signals ≡ true → s.caller ≡ waiting → Step signals tid s (record s { caller = returned })

pub data Reach (signals : Bool) (tid cb : ℕ) (name : Text) (pthread : ℕ) : Starting → Type 0 where
  start : Reach signals tid cb name pthread (create cb name pthread)
  later :
      {s t : Starting}
      → Reach signals tid cb name pthread s
      → Step signals tid s t
      → Reach signals tid cb name pthread t
