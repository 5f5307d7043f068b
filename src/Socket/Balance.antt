-- ===== src/Socket/Balance.antt =====
-- The descriptors that a Socket of src/socket.cpp takes and closes.
use mathlib.Core.Path.{subst}
use cool.Base.{
  ℕ, ◌+◌, ◌≡◌, refl, sym, Bool, true, false, not, ◌||◌, Option, none, some, arith, ◌==◌,
  if◌then◌else◌, is_some, Bool-cases, inl, inr,
}
use cool.Socket.{
  Socket, new_socket, is_valid, new_sock, ensure_sock, local_address, remote_address, bind,
  close_sock, close, connect,
}

-- The operations of its owner on a Socket that it made.
pub data Step : Socket → Socket → Type 0 where
  binds :
      (s : Socket) (family : ℕ) (answer : Option ℕ) (bound : Bool) (name : Option ℕ)
      → Step s (bind s family answer bound name).0
  connects :
      (s : Socket) (family : ℕ) (answer : Option ℕ) (ok : Bool) (name peer : Option ℕ)
      → Step s (connect s family answer ok name peer).0
  closes : (s : Socket) → Step s (close s).0

pub data Reached : Socket → Type 0 where
  made : (family type protocol : ℕ) → Reached (new_socket family type protocol)
  moved : {s t : Socket} → Reached s → Step s t → Reached t

-- One descriptor is open just when the Socket is valid, and all others that it took are closed.
abbrev pub IsBalanced : Socket → Type 0
IsBalanced s = s.opened ≡ s.closed + (if is_valid s then 1 else 0)

new_sock-IsBalanced :
    (s : Socket) (answer : Option ℕ)
    → is_valid s ≡ false
    → IsBalanced s
    → IsBalanced (new_sock s answer)
unfolding new_sock
new_sock-IsBalanced s none e h = let k : s.opened ≡ s.closed + 0 = rw e at h in k
new_sock-IsBalanced s (some fd) e h =
    let k : s.opened ≡ s.closed + 0 = rw e at h in omega (arith, k)

ensure_sock-IsBalanced :
    (s : Socket) (answer : Option ℕ) → IsBalanced s → IsBalanced (ensure_sock s answer)
unfolding ensure_sock
ensure_sock-IsBalanced s answer h = elim (Bool-cases (is_valid s)) [
  | inl e ↦ subst (λ b. IsBalanced (if b then s else new_sock s answer)) (sym e) h
  | inr e ↦
      subst (λ b. IsBalanced (if b then s else new_sock s answer)) (sym e)
        (new_sock-IsBalanced s answer e h)
]

local_address-IsBalanced :
    (s : Socket) (name : Option ℕ) → IsBalanced s → IsBalanced (local_address s name)
unfolding local_address
local_address-IsBalanced s name h = elim (Bool-cases (is_some s.local_name)) [
  | inl e ↦ subst (λ b. IsBalanced (if b then s else record s { local_name = name })) (sym e) h
  | inr e ↦ subst (λ b. IsBalanced (if b then s else record s { local_name = name })) (sym e) h
]

remote_address-IsBalanced :
    (s : Socket) (name : Option ℕ) → IsBalanced s → IsBalanced (remote_address s name)
unfolding remote_address
remote_address-IsBalanced s name h = elim (Bool-cases (is_some s.remote_name)) [
  | inl e ↦ subst (λ b. IsBalanced (if b then s else record s { remote_name = name })) (sym e) h
  | inr e ↦ subst (λ b. IsBalanced (if b then s else record s { remote_name = name })) (sym e) h
]

-- After close there is no descriptor, and as many were closed as taken.
abbrev Emptied : Socket → Type 0
Emptied s = (s.sock ≡ none) × (s.opened ≡ s.closed)

emptied_lem : (s : Socket) (o : Option ℕ) → s.sock ≡ o → IsBalanced s → Emptied (close_sock s o).0
emptied_lem s none e h =
    let k : s.opened ≡ s.closed + 0 = rw e at h in
    elim (Bool-cases s.is_connected) [
      | inl c ↦ rw c (e, omega (arith, k))
      | inr c ↦ rw c (e, omega (arith, k))
    ]
emptied_lem s (some fd) e h =
    let k : s.opened ≡ s.closed + 1 = rw e at h in (refl, omega (arith, k))

close-Emptied : (s : Socket) → IsBalanced s → Emptied (close s).0
unfolding close
close-Emptied s h = emptied_lem s s.sock refl h

Emptied-IsBalanced : (s : Socket) → Emptied s → IsBalanced s
Emptied-IsBalanced s (e, h) = rw e (omega (arith, h))

bind-IsBalanced :
    (s : Socket) (family : ℕ) (answer : Option ℕ) (bound : Bool) (name : Option ℕ)
    → IsBalanced s
    → IsBalanced (bind s family answer bound name).0
unfolding bind
bind-IsBalanced s family answer bound name h =
    let s1 = ensure_sock s answer in
    let v = ensure_sock-IsBalanced s answer h in
    elim (Bool-cases (not (is_valid s1) || not (family == s1.family))) [
      | inl e ↦ rw (bind, e) v
      | inr e ↦ elim (Bool-cases bound) [
        | inl b ↦ rw (bind, e, b) (local_address-IsBalanced s1 name v)
        | inr b ↦ rw (bind, e, b) v
      ]
    ]

connect-IsBalanced :
    (s : Socket) (family : ℕ) (answer : Option ℕ) (ok : Bool) (name peer : Option ℕ)
    → IsBalanced s
    → IsBalanced (connect s family answer ok name peer).0
unfolding connect
connect-IsBalanced s family answer ok name peer h =
    let s1 = ensure_sock s answer in
    let v = ensure_sock-IsBalanced s answer h in
    elim (Bool-cases (not (is_valid s1) || not (family == s1.family))) [
      | inl e ↦ rw (connect, e) v
      | inr e ↦ elim (Bool-cases ok) [
        | inl b ↦
            rw (connect, e, b)
              (local_address-IsBalanced _ name
                (remote_address-IsBalanced (record s1 { is_connected = true }) peer v))
        | inr b ↦ rw (connect, e, b) (Emptied-IsBalanced (close s1).0 (close-Emptied s1 v))
      ]
    ]

Step-IsBalanced : (a b : Socket) → Step a b → IsBalanced a → IsBalanced b
Step-IsBalanced _ _ (binds a family answer bound name) h =
    bind-IsBalanced a family answer bound name h
Step-IsBalanced _ _ (connects a family answer ok name peer) h =
    connect-IsBalanced a family answer ok name peer h
Step-IsBalanced _ _ (closes a) h = Emptied-IsBalanced (close a).0 (close-Emptied a h)

pub Reached-IsBalanced : (a : Socket) → Reached a → IsBalanced a
unfolding new_socket
Reached-IsBalanced _ (made family type protocol) = refl
Reached-IsBalanced a (moved {s = x} k t) = Step-IsBalanced x a t (Reached-IsBalanced x k)

-- Over every sequence of bind, connect and close, failing or not, a Socket holds one descriptor just
-- when it is valid and has closed all others that it took; a close then leaves none open.
pub life_lem :
    (s : Socket)
    → Reached s
    → (s.opened ≡ s.closed + (if is_valid s then 1 else 0))
      × ((close s).0.sock ≡ none)
      × ((close s).0.opened ≡ (close s).0.closed)
life_lem s r = let v = Reached-IsBalanced s r in let (e, k) = close-Emptied s v in (v, e, k)
