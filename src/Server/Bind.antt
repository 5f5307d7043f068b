-- ===== src/Server/Bind.antt =====
-- What bind of src/tcp_server.cpp answers, and what becomes of the descriptors that it takes.
use mathlib.Core.Path.{subst}
use mathlib.Core.List.{append_assoc, append-nil}
use cool.Base.{
  ℕ, ◌≡◌, refl, sym, ap, ◌∙◌, Bool, true, false, List, [], ◌∷◌, ◌++◌, Option, map, is_some, All,
  if◌then◌else◌, Bool-cases, inl, inr, arith,
}
use cool.Socket.{Socket, new_socket, is_valid, ensure_sock, local_address, bind}
use cool.Socket.Balance.{Reached, made, moved, binds, life_lem}
use cool.Server.{
  TcpServer, Attempt, destroyed, stream_type, bind_one, bind_loop, bind_end, clear_socks, bind_all,
}

-- The addresses that are not bound and listening, and the sockets that are.
abbrev pub failures : List Attempt → List ℕ
failures [] = []
failures (a ∷ tries) = let rest = failures tries in if (bind_one a).1 then rest else a.addr ∷ rest

abbrev pub bound_sockets : List Attempt → List Socket
bound_sockets [] = []
bound_sockets (a ∷ tries) =
    let rest = bound_sockets tries in if (bind_one a).1 then (bind_one a).0 ∷ rest else rest

abbrev pub is_nil : {A : Type 0} → List A → Bool
is_nil [] = true
is_nil (a ∷ xs) = false

bind_loop_ok :
    (s : TcpServer) (a : Attempt) (tries : List Attempt) (fails : List ℕ)
    → (bind_one a).1 ≡ true
    → bind_loop s (a ∷ tries) fails
      ≡ bind_loop (record s { socks = s.socks ++ (bind_one a).0 ∷ [] }) tries fails
unfolding bind_loop
bind_loop_ok s a tries fails e = rw e refl

bind_loop_failed :
    (s : TcpServer) (a : Attempt) (tries : List Attempt) (fails : List ℕ)
    → (bind_one a).1 ≡ false
    → bind_loop s (a ∷ tries) fails
      ≡ bind_loop
          (record s { released = s.released ++ destroyed (bind_one a).0 ∷ [] })
          tries
          (fails ++ a.addr ∷ [])
unfolding bind_loop
bind_loop_failed s a tries fails e = rw e refl

bind_loop_lem :
    (tries : List Attempt) (s : TcpServer) (fails : List ℕ)
    → ((bind_loop s tries fails).1 ≡ fails ++ failures tries)
      × ((bind_loop s tries fails).0.socks ≡ s.socks ++ bound_sockets tries)
unfolding bind_loop
bind_loop_lem [] s fails = (sym (append-nil fails), sym (append-nil s.socks))
bind_loop_lem (a ∷ tries) s fails = elim (Bool-cases (bind_one a).1) [
  | inl e ↦
      let s1 = record s { socks = s.socks ++ (bind_one a).0 ∷ [] } in
      let (f, k) = bind_loop_lem tries s1 fails in
      let step = bind_loop_ok s a tries fails e in
      (
        ap (λ r. r.1) step ∙ f ∙ rw e refl,
        ap (λ r. r.0.socks) step
            ∙ k
            ∙ append_assoc s.socks ((bind_one a).0 ∷ []) (bound_sockets tries)
            ∙ rw e refl,
      )
  | inr e ↦
      let s1 = record s { released = s.released ++ destroyed (bind_one a).0 ∷ [] } in
      let (f, k) = bind_loop_lem tries s1 (fails ++ a.addr ∷ []) in
      let step = bind_loop_failed s a tries fails e in
      (
        ap (λ r. r.1) step ∙ f ∙ append_assoc fails (a.addr ∷ []) (failures tries) ∙ rw e refl,
        ap (λ r. r.0.socks) step ∙ k ∙ rw e refl,
      )
]

bind_end_lem :
    (s : TcpServer) (fails : List ℕ)
    → ((bind_end (s, fails)).1 ≡ fails)
      × ((bind_end (s, fails)).2 ≡ is_nil fails)
      × ((bind_end (s, fails)).0.socks ≡ (if is_nil fails then s.socks else []))
unfolding clear_socks
bind_end_lem s [] = (refl, refl, refl)
bind_end_lem s (a ∷ fails) = (refl, refl, refl)

-- bind(addrs, fails) puts behind the addresses of `fails` just those that it could not bind or listen
-- on, in order; it answers true just when none is there, and then the server has one listening socket
-- more for each address, in order. Otherwise it has no socket left, none of an earlier bind either.
pub bind_all_lem :
    (s : TcpServer) (tries : List Attempt) (fails : List ℕ)
    → ((bind_all s tries fails).1 ≡ fails ++ failures tries)
      × ((bind_all s tries fails).2 ≡ is_nil (fails ++ failures tries))
      × ((bind_all s tries fails).0.socks
          ≡ (if is_nil (fails ++ failures tries) then s.socks ++ bound_sockets tries else []))
unfolding bind_all
bind_all_lem s tries fails =
    let (f, k) = bind_loop_lem tries s fails in
    let (e, b, o) = bind_end_lem (bind_loop s tries fails).0 (bind_loop s tries fails).1 in
    (
      e ∙ f,
      b ∙ ap is_nil f,
      o
          ∙ ap (λ l. if is_nil l then (bind_loop s tries fails).0.socks else []) f
          ∙ ap (λ l. if is_nil (fails ++ failures tries) then l else []) k,
    )

-- A socket of which no descriptor is open, and one that bind made, which is valid.
abbrev pub IsClosed : Socket → Type 0
IsClosed k = k.opened ≡ k.closed

abbrev pub Listening : Socket → Type 0
Listening k = Reached k × (is_valid k ≡ true)

abbrev pub NoLeak : TcpServer → Type 0
NoLeak s = All Listening s.socks × All IsClosed s.released

All-append : {A : Type 0} (P : A → Type 0) (xs ys : List A) → All P xs → All P ys → All P (xs ++ ys)
All-append P [] ys h k = k
All-append P (x ∷ xs) ys h k = (h.0, All-append P xs ys h.1 k)

All-destroyed : (ks : List Socket) → All Listening ks → All IsClosed (map destroyed ks)
All-destroyed [] h = tt
All-destroyed (k ∷ ks) h = let (_, _, c) = life_lem k h.0.0 in (c, All-destroyed ks h.1)

local_address_valid : (s : Socket) (name : Option ℕ) → is_valid (local_address s name) ≡ is_valid s
unfolding local_address
local_address_valid s name = elim (Bool-cases (is_some s.local_name)) [
  | inl e ↦ rw e refl
  | inr e ↦ rw e refl
]

bind_valid :
    (s : Socket) (family : ℕ) (fd : Option ℕ) (bound : Bool) (name : Option ℕ)
    → (bind s family fd bound name).1 ≡ true
    → is_valid (bind s family fd bound name).0 ≡ true
unfolding bind
bind_valid s family fd bound name h = ground (arith, local_address_valid (ensure_sock s fd) name)

-- The bind of bind_one.
abbrev tried : Attempt → Socket × Bool
tried a = bind (new_socket a.family stream_type 0) a.family a.fd a.bound a.name

bind_one-tried : (a : Attempt) → (bind_one a).0 ≡ (tried a).0
unfolding bind_one
bind_one-tried a = elim (Bool-cases (tried a).1) [ inl e ↦ rw e refl | inr e ↦ rw e refl ]

bind_one_ok : (a : Attempt) → (bind_one a).1 ≡ true → (tried a).1 ≡ true
unfolding bind_one
bind_one_ok a h = ground arith

bind_one-Reached : (a : Attempt) → Reached (bind_one a).0
bind_one-Reached a =
    subst Reached (sym (bind_one-tried a))
      (moved (made a.family stream_type 0) (binds _ a.family a.fd a.bound a.name))

bind_one-Listening : (a : Attempt) → (bind_one a).1 ≡ true → Listening (bind_one a).0
bind_one-Listening a e = (
  bind_one-Reached a,
  ap is_valid (bind_one-tried a)
      ∙ bind_valid (new_socket a.family stream_type 0) a.family a.fd a.bound a.name
          (bind_one_ok a e),
)

bind_loop-NoLeak :
    (tries : List Attempt) (s : TcpServer) (fails : List ℕ)
    → NoLeak s
    → NoLeak (bind_loop s tries fails).0
unfolding bind_loop
bind_loop-NoLeak [] s fails h = h
bind_loop-NoLeak (a ∷ tries) s fails (k, r) = elim (Bool-cases (bind_one a).1) [
  | inl e ↦
      subst (λ p. NoLeak p.0) (sym (bind_loop_ok s a tries fails e))
        (bind_loop-NoLeak tries _ fails
          (All-append Listening s.socks ((bind_one a).0 ∷ []) k (bind_one-Listening a e, tt), r))
  | inr e ↦
      let (_, _, c) = life_lem (bind_one a).0 (bind_one-Reached a) in
      subst (λ p. NoLeak p.0) (sym (bind_loop_failed s a tries fails e))
        (bind_loop-NoLeak tries _ (fails ++ a.addr ∷ [])
          (k, All-append IsClosed s.released (destroyed (bind_one a).0 ∷ []) r (c, tt)))
]

bind_end-NoLeak : (s : TcpServer) (fails : List ℕ) → NoLeak s → NoLeak (bind_end (s, fails)).0
unfolding clear_socks
bind_end-NoLeak s [] h = h
bind_end-NoLeak s (a ∷ fails) (k, r) =
    (tt, All-append IsClosed s.released (map destroyed s.socks) r (All-destroyed s.socks k))

-- bind(addrs, fails) keeps, whichever addresses fail, that every socket of the server has a descriptor
-- and every socket that the server let go has closed all descriptors that it took: a server whose
-- sockets are so before it has them so after it.
pub bind_all-NoLeak :
    (s : TcpServer) (tries : List Attempt) (fails : List ℕ)
    → NoLeak s
    → NoLeak (bind_all s tries fails).0
unfolding bind_all
bind_all-NoLeak s tries fails h =
    bind_end-NoLeak (bind_loop s tries fails).0 (bind_loop s tries fails).1
      (bind_loop-NoLeak tries s fails h)
