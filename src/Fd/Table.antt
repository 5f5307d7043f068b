-- ===== src/Fd/Table.antt =====
-- The table of descriptor contexts of src/fd_manager.cpp.
use cool.Base.{
  ℕ, zero, suc, ◌≤◌, ◌<◌, ◌≡◌, refl, true, false, [], ◌∷◌, Option, none, some, arith, length,
  get_elem?, set, leb, ◌==◌, if◌then◌else◌, Bool-cases, inl, inr, length-set, get_elem?-set_self,
  Option-cases, bool_eq,
}
use cool.Fd.{
  Kernel, FdCtx, FdManager, new_ctx, set_timeout, get_timeout, at, create, get, del, so_rcvtimeo,
}

get_elem?-set_other :
    (m : FdManager) (i j : ℕ) (c : Option FdCtx)
    → (i == j) ≡ false
    → get_elem? (set m i c) j ≡ get_elem? m j
get_elem?-set_other [] i j c h = refl
get_elem?-set_other (x ∷ m) zero zero c h = cc
get_elem?-set_other (x ∷ m) zero (suc j) c h = refl
get_elem?-set_other (x ∷ m) (suc i) zero c h = refl
get_elem?-set_other (x ∷ m) (suc i) (suc j) c h = get_elem?-set_other m i j c (ground arith)

at-set :
    (m : FdManager) (i j : ℕ) (c : Option FdCtx)
    → i < length m
    → at (set m i c) j ≡ (if i == j then c else at m j)
at-set m i j c h = elim (Bool-cases (i == j)) [
  | inl e ↦ ground (arith, get_elem?-set_self m i c h)
  | inr e ↦ ground (arith, get_elem?-set_other m i j c e)
]

create_inside :
    (k : Kernel) (m : FdManager) (fd : ℕ)
    → fd < length m
    → create k m fd
      ≡ some ((new_ctx k fd).0, set m fd (some (new_ctx k fd).1), some (new_ctx k fd).1)
unfolding create
create_inside k m fd h = ground arith

create_behind : (k : Kernel) (m : FdManager) (fd : ℕ) → length m ≤ fd → create k m fd ≡ none
unfolding create
create_behind k m fd h = ground arith

-- Asking for a descriptor inside the table with auto_create always answers a context, stores it
-- where it was missing, and leaves every other entry alone; the next plain get answers the same.
pub get-get :
    (k : Kernel) (m : FdManager) (fd : ℕ)
    → fd < length m
    → (k' : Kernel) × (m' : FdManager) × (c : FdCtx) × (get k m fd true ≡ some (k', m', some c))
      × (get k' m' fd false ≡ some (k', m', some c))
      × (length m' ≡ length m)
      × ((j : ℕ) → (fd == j) ≡ false → at m' j ≡ at m j)
unfolding get
get-get k m fd h =
    let inside : leb (length m) fd ≡ false = ground arith in
    elim (Option-cases (at m fd)) [
      | inr (c, e) ↦ (k, m, c, rw (inside, e), rw (inside, e), refl, λ j _. refl)
      | inl e ↦
          let k' = (new_ctx k fd).0 in
          let c = (new_ctx k fd).1 in
          let same = length-set m fd (some c) in
          let inside' : leb (length (set m fd (some c))) fd ≡ false = ground arith in
          (
            k',
            set m fd (some c),
            c,
            rw (inside, e) (create_inside k m fd h),
            rw (inside', at-set m fd fd (some c) h) (ground arith),
            same,
            λ j n. rw (at-set m fd j (some c) h) (rw n),
          )
    ]

-- For a descriptor behind the end of the table, get with auto_create stores out of bounds.
pub get_out_of_bounds :
    (k : Kernel) (m : FdManager) (fd : ℕ) → length m ≤ fd → get k m fd true ≡ none
unfolding get
get_out_of_bounds k m fd h =
    let t : leb (length m) fd ≡ true = ground arith in rw t (create_behind k m fd h)

-- After del the descriptor has no context, and the others keep theirs.
pub at-del : (m : FdManager) (fd j : ℕ) → at (del m fd) j ≡ (if fd == j then none else at m j)
unfolding del
at-del m fd j = elim (Bool-cases (leb (length m) fd)) [
  | inl e ↦
      rw e (elim (Bool-cases (fd == j)) [ inl f ↦ rw f (behind m j (ground arith)) | inr f ↦ rw f ])
  | inr e ↦ rw e (at-set m fd j none (ground arith))
]
  where
    behind : (m : FdManager) (j : ℕ) → length m ≤ j → at m j ≡ none
    behind [] j h = refl
    behind (x ∷ m) zero h = absurd (omega arith)
    behind (x ∷ m) (suc j) h = behind m j (omega arith)

-- Each of the two timeouts is read back as it was set, and setting one keeps the other.
pub get-set_timeout :
    (c : FdCtx) (s t v : ℕ)
    → get_timeout (set_timeout c s v) t
      ≡ (if bool_eq (s == so_rcvtimeo) (t == so_rcvtimeo) then v else get_timeout c t)
unfolding get_timeout set_timeout
get-set_timeout c s t v = ground arith
