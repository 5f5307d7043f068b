-- ===== src/Hook/Safety.antt =====
-- What a call behind do_io of src/hook.cpp can answer.
use cool.Base.{
  ℕ, ◌≡◌, refl, sym, ◌∙◌, ◌⊎◌, Bool, true, false, not, ◌&&◌, ◌||◌, List, [], ◌∷◌, Option, none,
  some, arith, Bool-cases, Option-cases, inl, inr, All,
}
use cool.Fd.{no_timeout, get_timeout}
use cool.Hook.{
  Answer, failed, eintr, eagain, etimedout, is_failed, World, Outcome, done, waiting, fault,
  context_of,
}
use cool.Hook.Io.{Op, Wake, call, is_cancelled, wait_for, retry, do_io}

-- Neither EAGAIN nor EINTR.
abbrev pub is_final : Answer → Bool
is_final a = not (is_failed eagain a) && not (is_failed eintr a)

abbrev pub FinalErrno : Wake → Type 0
FinalErrno k = is_final (failed k.ctl_errno) ≡ true

-- The descriptor is a socket that is blocking for its user, and the hooks are on.
pub record Hooked (w : World) (fd : ℕ) : Type 0 where
  pub enabled : w.hook_enable ≡ true
  pub blocking :
      elim (context_of w fd) [
        | none ↦ false
        | some c ↦ not c.is_closed && (c.is_socket && not c.user_nonblock)
      ]
      ≡ true

call_not_eintr :
    (answers rest : List Answer) (a : Answer)
    → call answers ≡ some (a, rest)
    → is_failed eintr a ≡ false
unfolding call
call_not_eintr [] rest a h = absurd (cc)
call_not_eintr (b ∷ bs) rest a h = elim (Bool-cases (is_failed eintr b)) [
  | inl e ↦ call_not_eintr bs rest a (rw e at h)
  | inr e ↦
      let q : ◌≡◌ {A = Option (Answer × List Answer)} (some (b, bs)) (some (a, rest)) = rw e at h in
      let p : b ≡ a = cc in rw (← p) e
]

Outcome-cases :
    {A : Type 0} (o : Outcome A) → ((a : A) × (o ≡ done a)) ⊎ ((o ≡ waiting) ⊎ (o ≡ fault))
Outcome-cases (done a) = inl (a, refl)
Outcome-cases waiting = inr (inl refl)
Outcome-cases fault = inr (inr refl)

final_answer :
    (answers rest : List Answer) (w w' : World) (b a : Answer)
    → call answers ≡ some (b, rest)
    → is_failed eagain b ≡ false
    → ◌≡◌ {A = Outcome (World × Answer)} (done (w, b)) (done (w', a))
    → is_final a ≡ true
final_answer answers rest w w' b a g e h =
    let p : b ≡ a = cc in rw (← p) (rw (e, call_not_eintr answers rest b g))

retry-Final :
    (op : Op) (to : ℕ) (w w' : World) (answers : List Answer) (ks : List Wake) (a : Answer)
    → All FinalErrno ks
    → retry op to w answers ks ≡ done (w', a)
    → is_final a ≡ true
unfolding retry
retry-Final op to w w' answers [] a f h = elim (Option-cases (call answers)) [
  | inl n ↦
      let q : ◌≡◌ {A = Outcome (World × Answer)} waiting (done (w', a)) = rw (retry, n) at h in
      absurd (cc)
  | inr ((b, rest), g) ↦ elim (Bool-cases (is_failed eagain b)) [
    | inl e ↦
        let q : ◌≡◌ {A = Outcome (World × Answer)} waiting (done (w', a)) = rw (retry, g, e) at h in
        absurd (cc)
    | inr e ↦ final_answer answers rest w w' b a g e (rw (retry, g, e) at h)
  ]
]
retry-Final op to w w' answers (k ∷ ks) a f h = elim (Option-cases (call answers)) [
  | inl n ↦
      let q : ◌≡◌ {A = Outcome (World × Answer)} waiting (done (w', a)) = rw (retry, n) at h in
      absurd (cc)
  | inr ((b, rest), g) ↦ elim (Bool-cases (is_failed eagain b)) [
    | inr e ↦ final_answer answers rest w w' b a g e (rw (retry, g, e) at h)
    | inl e ↦ elim (Outcome-cases (wait_for op.fd op.event to w k)) [
      | inr (inl n) ↦
          let q : ◌≡◌ {A = Outcome (World × Answer)} waiting (done (w', a)) =
            rw (retry, g, e, n) at h in
          absurd (cc)
      | inr (inr n) ↦
          let q : ◌≡◌ {A = Outcome (World × Answer)} fault (done (w', a)) =
            rw (retry, g, e, n) at h in
          absurd (cc)
      | inl ((w1, false), n) ↦
          let q : ◌≡◌ {A = Outcome (World × Answer)} (done (w1, failed k.ctl_errno))
              (done (w', a)) =
            rw (retry, g, e, n) at h in
          let p : failed k.ctl_errno ≡ a = cc in rw (← p) f.0
      | inl ((w1, true), n) ↦ elim (Bool-cases (is_cancelled to k)) [
        | inl c ↦
            let q : ◌≡◌ {A = Outcome (World × Answer)} (done (w1, failed etimedout))
                (done (w', a)) =
              rw (retry, g, e, n, c) at h in
            let p : failed etimedout ≡ a = cc in rw (← p) refl
        | inr c ↦ retry-Final op to w1 w' rest ks a f.1 (rw (retry, g, e, n, c) at h)
      ]
    ]
  ]
]

abbrev pub timeout_of : World → Op → ℕ
timeout_of w op = elim (context_of w op.fd) [
  | none ↦ no_timeout
  | some c ↦ get_timeout c op.timeout_so
]

-- Past its guards, do_io is the loop behind retry.
pub do_io-retry :
    (op : Op) (w : World) (answers : List Answer) (ks : List Wake)
    → Hooked w op.fd
    → do_io op w answers ks ≡ retry op (timeout_of w op) w answers ks
unfolding do_io
do_io-retry op w answers ks v = elim (Option-cases (context_of w op.fd)) [
  | inl n ↦ let q : false ≡ true = rw n at v.blocking in absurd (cc)
  | inr (c, n) ↦
      let b : (not c.is_closed && (c.is_socket && not c.user_nonblock)) ≡ true =
        rw n at v.blocking in
      let i : c.is_closed ≡ false = ground arith in
      let j : (not c.is_socket || c.user_nonblock) ≡ false = ground arith in
      rw (do_io, v.enabled, n) (ground arith)
]

-- With the hooks on, a call on an open socket that its user left blocking answers neither EAGAIN nor
-- EINTR, whatever the system answers, provided that epoll_ctl fails with neither.
pub do_io-Final :
    (op : Op) (w w' : World) (answers : List Answer) (ks : List Wake) (a : Answer)
    → Hooked w op.fd
    → All FinalErrno ks
    → do_io op w answers ks ≡ done (w', a)
    → is_final a ≡ true
do_io-Final op w w' answers ks a v f h =
    retry-Final op (timeout_of w op) w w' answers ks a f (sym (do_io-retry op w answers ks v) ∙ h)
