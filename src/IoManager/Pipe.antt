-- ===== src/IoManager/Pipe.antt =====
-- The constructor, the destructor and the pipe that wakes the idle threads of src/iomanager.cpp. The
-- answers of epoll_create, pipe, fcntl, epoll_ctl and write are arguments, and `none` is a failed
-- ASSERT.
use cool.Base.{
  ℕ, zero, suc, ◌+◌, ◌≡◌, refl, ap, ◌∙◌, Bool, true, false, not, ◌&&◌, ◌||◌, List, [], ◌∷◌, Option,
  none, some, ltb, arith, Bool-cases, inl, inr, if◌then◌else◌,
}
use cool.IoManager.{FdContext, resize_context}

-- m_epfd, m_tickleFds, and the bytes that stand in the pipe.
pub record Pipe : Type 0 where
  pub epfd : ℕ
  pub read_end : ℕ
  pub write_end : ℕ
  pub unread : ℕ

-- What the system answers the constructor.
pub record Answers : Type 0 where
  pub epfd : ℕ  -- 0 for an answer that is not positive
  pub pipe : Option (ℕ × ℕ)
  pub nonblock_ok : Bool
  pub ctl_ok : Bool

-- IOManager() up to start(): the pipe and m_fdContexts.
unfoldable pub construct : Answers → Option (Pipe × List FdContext)
construct a = if not (ltb 0 a.epfd) then none else elim a.pipe [
  | none ↦ none
  | some (r, w) ↦
      if a.nonblock_ok && a.ctl_ok
      then some
          (record { epfd = a.epfd; read_end = r; write_end = w; unread = 0 }, resize_context [] 32)
      else none
]

-- What ~IOManager closes behind stop().
unfoldable pub destroy : Pipe → List ℕ
destroy p = p.epfd ∷ p.read_end ∷ p.write_end ∷ []

-- tickle, which is also onTimerInsertAtFront: `idle` threads are idle, and `wrote` says whether write
-- took the byte.
unfoldable pub tickle : Pipe → ℕ → Bool → Option Pipe
tickle p idle wrote =
    if not (ltb 0 idle)
    then some p
    else (if wrote then some (record p { unread = p.unread + 1 }) else none)

-- The loop of idle() that reads the pipe, which does not block, byte by byte.
unfoldable pub drain_rounds : ℕ → ℕ
drain_rounds zero = zero
drain_rounds (suc n) = drain_rounds n

unfoldable pub drain : Pipe → Pipe
drain p = record p { unread = drain_rounds p.unread }

-- The calls of tickle and the rounds of idle() on the pipe.
pub data Act : Type 0 where
  tickles : (idle : ℕ) → Act
  drains : Act

unfoldable pub run : Pipe → List Act → Option Pipe
run p [] = some p
run p (tickles idle ∷ acts) = elim (tickle p idle true) [ none ↦ none | some q ↦ run q acts ]
run p (drains ∷ acts) = run (drain p) acts

-- Whether some idle thread was tickled since the pipe was last read.
abbrev pub is_woken : Bool → List Act → Bool
is_woken b [] = b
is_woken b (tickles idle ∷ acts) = is_woken (b || ltb 0 idle) acts
is_woken b (drains ∷ acts) = is_woken false acts

drained : (n : ℕ) → drain_rounds n ≡ 0
unfolding drain_rounds
drained zero = refl
drained (suc n) = drained n

drain_empties : (p : Pipe) → (drain p).unread ≡ 0
unfolding drain
drain_empties p = drained p.unread

tickle_ok :
    (p : Pipe) (idle : ℕ)
    → (q : Pipe) × (tickle p idle true ≡ some q) × (ltb 0 q.unread ≡ ltb 0 p.unread || ltb 0 idle)
unfolding tickle
tickle_ok p idle = elim (Bool-cases (ltb 0 idle)) [
  | inl e ↦ (record p { unread = p.unread + 1 }, rw e refl, ground arith)
  | inr e ↦ (p, rw e refl, ground arith)
]

-- Over any calls of tickle, each of whose writes is taken, and any rounds of idle(), no wake-up is
-- lost and none is left over: the pipe is readable just when an idle thread was tickled since it was
-- last read, or was readable at the start and not read since.
pub run_woken :
    (acts : List Act) (p : Pipe)
    → (q : Pipe) × (run p acts ≡ some q) × (ltb 0 q.unread ≡ is_woken (ltb 0 p.unread) acts)
unfolding run
run_woken [] p = (p, refl, refl)
run_woken (tickles idle ∷ acts) p =
    let (p', e, w) = tickle_ok p idle in
    let (q, f, u) = run_woken acts p' in
    (
      q,
      ap (λ o. elim o [ none ↦ none | some x ↦ run x acts ]) e ∙ f,
      u ∙ ap (λ b. is_woken b acts) w,
    )
run_woken (drains ∷ acts) p =
    let (q, f, u) = run_woken acts (drain p) in
    (q, f, u ∙ ap (λ n. is_woken (ltb 0 n) acts) (drain_empties p))
