-- ===== src/Thread/Join.antt =====
-- Thread::join, ~Thread, SetName, GetName and Semaphore (src/thread.cpp). The calls of the system
-- are recorded; what pthread_join, sem_init and sem_post answer is an argument. `inl` is the
-- exception that is thrown.
use cool.Base.{
  ℕ, zero, suc, Bool, true, false, List, [], ◌∷◌, ◌++◌, Option, none, some, ◌≡◌, ◌≢◌, refl, ◌⊎◌,
  inl, inr, ◌==◌, ◌||◌, if◌then◌else◌, Bool-cases, ap, ◌∙◌, arith,
}
use cool.Base.Text.{Text, codes}
use cool.Thread.Start.{Thread}

pub data SystemCall : Type 0 where
  pthread_join pthread_detach : ℕ → SystemCall

pub data LogicError : Type 0 where
  pthread_join_error sem_init_error sem_post_error : LogicError

-- What is left of a call that may throw.
pub record Outcome : Type 0 where
  pub thread : Thread
  pub calls : List SystemCall
  pub thrown : Option LogicError

-- join, with the answer of pthread_join.
unfoldable pub join : Thread → ℕ → Outcome
join t rt =
    if t.thread == 0
    then record { thread = t; calls = []; thrown = none }
    else (if rt == 0
        then record {
          thread = record t { thread = 0 };
          calls = pthread_join t.thread ∷ [];
          thrown = none;
        }
        else record {
          thread = t;
          calls = pthread_join t.thread ∷ [];
          thrown = some pthread_join_error;
        })

-- The destructor.
unfoldable pub destroy : Thread → List SystemCall
destroy t = if t.thread == 0 then [] else pthread_detach t.thread ∷ []

-- Calls of join, each with its answer, and the destructor: the pthread_joins that succeeded and the
-- pthread_detach, whose answer is ignored.
unfoldable pub lifetime : Thread → List ℕ → List SystemCall
lifetime t [] = destroy t
lifetime t (rt ∷ rts) =
    let o = join t rt in
    elim o.thrown [ none ↦ o.calls ++ lifetime o.thread rts | some e ↦ lifetime o.thread rts ]

-- The thread_local variables t_thread and t_thread_name.
pub record Local : Type 0 where
  pub t_thread : Option Thread
  pub t_thread_name : Text

unfoldable pub local_new : Local
local_new = record { t_thread = none; t_thread_name = codes "UNKNOWN" }

unfoldable pub get_this : Local → Option Thread
get_this l = l.t_thread

unfoldable pub get_name : Local → Text
get_name l = l.t_thread_name

unfoldable pub set_name : Local → Text → Local
set_name l name = record {
  t_thread = elim l.t_thread [ none ↦ none | some t ↦ some (record t { name = name }) ];
  t_thread_name = name;
}

-- Semaphore: the constructor, notify and wait, with what sem_init, sem_post and sem_wait answer.
unfoldable pub semaphore : ℕ → Bool → LogicError ⊎ ℕ
semaphore count fails = if fails then inl sem_init_error else inr count

unfoldable pub notify : ℕ → Bool → LogicError ⊎ ℕ
notify count fails = if fails then inl sem_post_error else inr (suc count)

-- `none` while it waits.
unfoldable pub wait : ℕ → Bool → Option ℕ
wait count true = some count
wait zero false = none
wait (suc n) false = some n

after : Outcome → List ℕ → List SystemCall
after o rts = elim o.thrown [
  | none ↦ o.calls ++ lifetime o.thread rts
  | some e ↦ lifetime o.thread rts
]

lifetime-join : (t : Thread) (rt : ℕ) (rts : List ℕ) → lifetime t (rt ∷ rts) ≡ after (join t rt) rts
unfolding lifetime after
lifetime-join t rt rts = refl

zero_test : (n : ℕ) → n ≢ 0 → (n == 0) ≡ false
zero_test n h = ground arith

join_joined :
    (t : Thread) (rt : ℕ)
    → t.thread ≡ 0
    → join t rt ≡ record { thread = t; calls = []; thrown = none }
unfolding join
join_joined t rt e = ground arith

join_ok :
    (t : Thread) (rt : ℕ)
    → t.thread ≢ 0
    → (rt == 0) ≡ true
    → join t rt ≡ record {
      thread = record t { thread = 0 };
      calls = pthread_join t.thread ∷ [];
      thrown = none;
    }
unfolding join
join_ok t rt h e = rw (zero_test t.thread h, e) refl

join_failed :
    (t : Thread) (rt : ℕ)
    → t.thread ≢ 0
    → (rt == 0) ≡ false
    → join t rt
      ≡ record { thread = t; calls = pthread_join t.thread ∷ []; thrown = some pthread_join_error }
unfolding join
join_failed t rt h e = rw (zero_test t.thread h, e) refl

lifetime_joined : (t : Thread) (rts : List ℕ) → t.thread ≡ 0 → lifetime t rts ≡ []
unfolding lifetime destroy after
lifetime_joined t [] e = ground arith
lifetime_joined t (rt ∷ rts) e =
    lifetime-join t rt rts ∙ ap (λ o. after o rts) (join_joined t rt e) ∙ lifetime_joined t rts e

-- Whether a pthread_join answers 0.
unfoldable pub any_zero : List ℕ → Bool
any_zero [] = false
any_zero (rt ∷ rts) = rt == 0 || any_zero rts

-- The call that hands the thread `pthread` back, by whether a join succeeds.
unfoldable pub reaped_by : ℕ → Bool → SystemCall
reaped_by pthread true = pthread_join pthread
reaped_by pthread false = pthread_detach pthread

-- Of a thread that was created, whatever calls of join are made and however they end, the
-- pthread_joins that succeed and the pthread_detach of the destructor are together exactly one call:
-- a pthread_join if some pthread_join would answer 0, and else the pthread_detach.
pub lifetime_reaped :
    (t : Thread) (rts : List ℕ)
    → t.thread ≢ 0
    → lifetime t rts ≡ reaped_by t.thread (any_zero rts) ∷ []
unfolding lifetime destroy after any_zero reaped_by
lifetime_reaped t [] h = rw (zero_test t.thread h)
lifetime_reaped t (rt ∷ rts) h = elim (Bool-cases (rt == 0)) [
  | inl e ↦
      lifetime-join t rt rts
      ∙ ap (λ o. after o rts) (join_ok t rt h e)
      ∙ ap (◌∷◌ (pthread_join t.thread)) (lifetime_joined (record t { thread = 0 }) rts refl)
      ∙ rw e
  | inr e ↦
      lifetime-join t rt rts
      ∙ ap (λ o. after o rts) (join_failed t rt h e)
      ∙ lifetime_reaped t rts h
      ∙ rw e
]
