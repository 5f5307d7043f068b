-- ===== src/Server/Http/Requests.antt =====
-- The requests that the session of handle_client in src/http/http_server.cpp receives.
use cool.Base.{
  ℕ, zero, suc, ◌<◌, ◌≡◌, ◌⊎◌, refl, ap, Bool, true, false, List, [], ◌∷◌, ◌++◌, Option,
  if◌then◌else◌, inl, inr, arith, length, ◌==◌,
}
use cool.Base.Text.{Text}
use cool.Http.Message.{HttpRequest}
use cool.Http.Parser.{
  Machine, RequestCall, HttpRequestParser, new_parser, execute, has_error, is_finished,
}
use cool.Http.Session.{
  Read, got, failed, Received, received, closed, waiting, fault, receive, recv_request,
}
use cool.Server.Http.{End, ended, pending, faulted, reads_left}

chosen :
    {A : Type 0} (a b c : Bool) (r t : A) (x : Received A)
    → (if a then closed else (if b then closed else (if c then received r else x))) ≡ received t
    → (r ≡ t) ⊎ (x ≡ received t)
chosen true b c r t x e = absurd cc
chosen false true c r t x e = absurd cc
chosen false false true r t x e = inl cc
chosen false false false r t x e = inr e

pub Received-cases :
    {A : Type 0} (o : Received A)
    → ((a : A) × (o ≡ received a)) ⊎ ((o ≡ closed) ⊎ ((o ≡ waiting) ⊎ (o ≡ fault)))
Received-cases (received a) = inl (a, refl)
Received-cases closed = inr (inl refl)
Received-cases waiting = inr (inr (inl refl))
Received-cases fault = inr (inr (inr refl))

-- The requests that recvRequest hands on one after the other, only the first without keep-alive, and
-- how the session stands behind them.
unfoldable pub next_requests :
    Bool → List HttpRequest × End → Received HttpRequest → List HttpRequest × End
next_requests keep again closed = ([], ended)
next_requests keep again waiting = ([], pending)
next_requests keep again fault = ([], faulted)
next_requests keep again (received req) =
    if keep then (req ∷ again.0, again.1) else (req ∷ [], ended)

module _ {M : Type 0} (m : Machine M RequestCall) (cast : Text → Option ℕ) (buf_size : ℕ) where
  shrinks :
      (reads : List Read) (kept : Text) (p : HttpRequestParser M)
      (t : Text × HttpRequestParser M × List Read)
      → receive m buf_size kept p reads ≡ received t
      → length t.2 < length reads
  unfolding receive
  shrinks [] kept p t e = absurd cc
  shrinks (failed ∷ reads) kept p t e = absurd cc
  shrinks (got [] ∷ reads) kept p t e = absurd cc
  shrinks (got (c ∷ bytes) ∷ reads) kept p t e =
      let r = execute m p (kept ++ c ∷ bytes) in
      elim (chosen (has_error m r.0) (length r.1 == buf_size) (is_finished m r.0) (r.1, r.0, reads)
        t (receive m buf_size r.1 r.0 reads) e) [
          | inl k ↦ let same : reads ≡ t.2 = ap (λ x. x.2) k in rw (← same) (omega arith)
          | inr k ↦ omega (arith, shrinks reads r.1 r.0 t k)
        ]

  reads_left_lem :
      (reads : List Read) (t : Text × HttpRequestParser M × List Read)
      → receive m buf_size [] (new_parser m) reads ≡ received t
      → reads_left m buf_size reads ≡ t.2
  unfolding reads_left
  reads_left_lem reads t k = rw (reads_left, k) refl

  -- A request that was received took at least one read.
  pub reads_left_less :
      (reads : List Read) (req : HttpRequest)
      → recv_request m cast buf_size reads ≡ received req
      → length (reads_left m buf_size reads) < length reads
  unfolding recv_request
  reads_left_less reads req e = elim (Received-cases (receive m buf_size [] (new_parser m) reads)) [
    | inl (t, k) ↦ rw (reads_left_lem reads t k) (shrinks reads [] (new_parser m) t k)
    | inr (inl k) ↦
        let q : ◌≡◌ {A = Received HttpRequest} closed (received req) = rw (recv_request, k) at e in
        absurd cc
    | inr (inr (inl k)) ↦
        let q : ◌≡◌ {A = Received HttpRequest} waiting (received req) = rw (recv_request, k) at e in
        absurd cc
    | inr (inr (inr k)) ↦
        let q : ◌≡◌ {A = Received HttpRequest} fault (received req) = rw (recv_request, k) at e in
        absurd cc
  ]

  unfoldable pub requests : Bool → ℕ → List Read → List HttpRequest × End
  requests keep zero reads = ([], pending)
  requests keep (suc fuel) reads =
      next_requests keep (requests keep fuel (reads_left m buf_size reads))
        (recv_request m cast buf_size reads)
