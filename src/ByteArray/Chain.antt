-- ===== src/ByteArray/Chain.antt =====
-- The loops of write and read in src/bytearray.cpp over a chain of equal nodes, against one flat
-- sequence of bytes.
use cool.Base.{
  ℕ, zero, suc, ◌+◌, ◌-◌, ◌*◌, ◌/◌, ◌≤◌, ◌<◌, ◌≡◌, refl, sym, ap, ◌∙◌, List, [], ◌∷◌, ◌++◌, none,
  some, arith, length, take, drop, overwrite, length-drop, leb, leb→le, ◌==◌, Bool-cases, inl, inr,
  if◌then◌else◌,
}
use cool.ByteArray.{write_chain, read_chain}
use native.Mathlib.Nat.{add-zero, div-eq_of_lt}
use cool.ByteArray.Flat.{
  Uniform, flat, overwrite-nil, overwrite-append, take_all, drop_all, take-drop-append,
  take-drop-append_short, length-overwrite, div_one_more,
}

-- What the loop of write does from offset `npos` of the first node on.
pub record Written (base : ℕ) (ns : List (List ℕ)) (npos : ℕ) (xs : List ℕ) (ns' : List (List ℕ))
    (moved : ℕ) : Type 0 where
  pub bytes : flat ns' ≡ overwrite npos xs (flat ns)
  pub same_count : length ns' ≡ length ns
  pub uniform : Uniform base ns'
  pub steps : moved ≡ (npos + length xs) / base

fits_bytes :
    (base npos : ℕ) (xs n : List ℕ) (ns : List (List ℕ))
    → length n ≡ base
    → npos < base
    → length xs ≤ base - npos
    → flat (overwrite npos xs n ∷ ns) ≡ overwrite npos xs (flat (n ∷ ns))
unfolding flat
fits_bytes base npos xs n ns e h k = sym (
    overwrite-append (base - npos) npos xs n (flat ns) (omega arith)
    ∙ rw (take_all (base - npos) xs k, drop_all (base - npos) xs k, overwrite-nil))

fits_steps :
    (base npos len : ℕ)
    → npos < base
    → len ≤ base - npos
    → (if base == npos + len then 1 else 0) ≡ (npos + len) / base
fits_steps base npos len h k = elim (Bool-cases (base == npos + len)) [
  | inl e ↦ rw e (grind arith)
  | inr e ↦ rw e (grind arith)
]

write_chain_fits :
    (base : ℕ) (n : List ℕ) (ns : List (List ℕ)) (npos x : ℕ) (xs : List ℕ)
    → length n ≡ base
    → npos < base
    → length (x ∷ xs) ≤ base - npos
    → write_chain (n ∷ ns) npos (x ∷ xs)
      ≡ some (overwrite npos (x ∷ xs) n ∷ ns, if base == npos + length (x ∷ xs) then 1 else 0)
unfolding write_chain
write_chain_fits base n ns npos x xs e h k = ground arith

write_chain_spills :
    (base : ℕ) (n : List ℕ) (ns : List (List ℕ)) (npos x : ℕ) (xs : List ℕ)
    → length n ≡ base
    → npos < base
    → base - npos < length (x ∷ xs)
    → write_chain (n ∷ ns) npos (x ∷ xs) ≡ elim (write_chain ns 0 (drop (base - npos) (x ∷ xs))) [
      | none ↦ none
      | some (ns', k) ↦ some (overwrite npos (take (base - npos) (x ∷ xs)) n ∷ ns', suc k)
    ]
unfolding write_chain
write_chain_spills base n ns npos x xs e h k = ground arith

spills_Written :
    (base : ℕ) (n : List ℕ) (ns : List (List ℕ)) (npos : ℕ) (xs : List ℕ) (ns' : List (List ℕ))
    (moved : ℕ)
    → length n ≡ base
    → npos < base
    → base - npos < length xs
    → Written base ns 0 (drop (base - npos) xs) ns' moved
    → Written base (n ∷ ns) npos xs (overwrite npos (take (base - npos) xs) n ∷ ns') (suc moved)
unfolding flat
spills_Written base n ns npos xs ns' moved e h k w = record {
  bytes = rw w.bytes (sym (overwrite-append (base - npos) npos xs n (flat ns) (omega arith)));
  same_count = ap suc w.same_count;
  uniform = (length-overwrite npos _ n ∙ e, w.uniform);
  steps =
      let left : npos + length xs ≡ base + length (drop (base - npos) xs) =
        omega (arith, length-drop (base - npos) xs) in
      ap suc w.steps ∙ rw left (div_one_more base (length (drop (base - npos) xs)) (omega arith));
}

-- Enough room: the loop ends, and writes the bytes where the flat view says.
pub write_chain-Written :
    (base : ℕ) (ns : List (List ℕ)) (npos : ℕ) (xs : List ℕ)
    → Uniform base ns
    → npos < base
    → npos + length xs ≤ length ns * base
    → (ns' : List (List ℕ)) × (moved : ℕ) × (write_chain ns npos xs ≡ some (ns', moved))
      × Written base ns npos xs ns' moved
write_chain-Written base ns npos [] u h k = (
  ns,
  0,
  unfold write_chain in refl,
  record {
    bytes = sym (overwrite-nil npos (flat ns));
    same_count = refl;
    uniform = u;
    steps = sym (ap (λ (t : ℕ). t / base) (add-zero npos) ∙ div-eq_of_lt h);
  },
)
write_chain-Written base [] npos (x ∷ xs) u h k = absurd (omega arith)
write_chain-Written base (n ∷ ns) npos (x ∷ xs) u h k =
    elim (Bool-cases (leb (length (x ∷ xs)) (base - npos))) [
      | inl fits ↦
          let le : length (x ∷ xs) ≤ base - npos = leb→le _ _ fits in
          (
            _,
            _,
            write_chain_fits base n ns npos x xs u.0 h le,
            record {
              bytes = fits_bytes base npos (x ∷ xs) n ns u.0 h le;
              same_count = refl;
              uniform = (length-overwrite npos (x ∷ xs) n ∙ u.0, u.1);
              steps = fits_steps base npos (length (x ∷ xs)) h le;
            },
          )
      | inr spills ↦
          let lt : base - npos < length (x ∷ xs) = ground arith in
          let (ns', moved, e, w) =
            write_chain-Written base ns 0 (drop (base - npos) (x ∷ xs)) u.1 (omega arith)
              (omega (arith, length-drop (base - npos) (x ∷ xs))) in
          (
            _,
            _,
            write_chain_spills base n ns npos x xs u.0 h lt ∙ rw e,
            spills_Written base n ns npos (x ∷ xs) ns' moved u.0 h lt w,
          )
    ]

-- Too little room: the loop runs off the end of the chain.
pub write_chain_short :
    (base : ℕ) (ns : List (List ℕ)) (npos : ℕ) (xs : List ℕ)
    → Uniform base ns
    → npos < base
    → length ns * base < npos + length xs
    → 0 < length xs
    → write_chain ns npos xs ≡ none
write_chain_short base ns npos [] u h k p = absurd (omega arith)
write_chain_short base [] npos (x ∷ xs) u h k p = unfold write_chain in refl
write_chain_short base (n ∷ ns) npos (x ∷ xs) u h k p =
    let lt : base - npos < length (x ∷ xs) = omega arith in
    let e =
      write_chain_short base ns 0 (drop (base - npos) (x ∷ xs)) u.1 (omega arith)
        (omega (arith, length-drop (base - npos) (x ∷ xs)))
        (omega (arith, length-drop (base - npos) (x ∷ xs))) in
    write_chain_spills base n ns npos x xs u.0 h lt ∙ rw e

-- The same for read.
read_chain_fits :
    (base : ℕ) (n : List ℕ) (ns : List (List ℕ)) (npos s : ℕ)
    → length n ≡ base
    → npos < base
    → suc s ≤ base - npos
    → read_chain (n ∷ ns) npos (suc s)
      ≡ some (take (suc s) (drop npos n), if base == npos + suc s then 1 else 0)
unfolding read_chain
read_chain_fits base n ns npos s e h k = ground arith

read_chain_spills :
    (base : ℕ) (n : List ℕ) (ns : List (List ℕ)) (npos s : ℕ)
    → length n ≡ base
    → npos < base
    → base - npos < suc s
    → read_chain (n ∷ ns) npos (suc s) ≡ elim (read_chain ns 0 (suc s - (base - npos))) [
      | none ↦ none
      | some (bs, k) ↦ some (take (base - npos) (drop npos n) ++ bs, suc k)
    ]
unfolding read_chain
read_chain_spills base n ns npos s e h k = ground arith

-- Reading inside the chain gives the slice of the flat view.
pub read_chain_lem :
    (base : ℕ) (ns : List (List ℕ)) (npos s : ℕ)
    → Uniform base ns
    → npos < base
    → npos + s ≤ length ns * base
    → read_chain ns npos s ≡ some (take s (drop npos (flat ns)), (npos + s) / base)
read_chain_lem base ns npos zero u h k =
    let e : (npos + 0) / base ≡ 0 = ap (λ (t : ℕ). t / base) (add-zero npos) ∙ div-eq_of_lt h in
    rw e (unfold read_chain in refl)
read_chain_lem base [] npos (suc s) u h k = absurd (omega arith)
read_chain_lem base (n ∷ ns) npos (suc s) u h k = elim (Bool-cases (leb (suc s) (base - npos))) [
  | inl fits ↦
      let le : suc s ≤ base - npos = leb→le _ _ fits in
      read_chain_fits base n ns npos s u.0 h le
      ∙ rw (fits_steps base npos (suc s) h le)
          (unfold flat in rw (take-drop-append_short npos (suc s) n (flat ns) (omega arith)))
  | inr spills ↦
      let lt : base - npos < suc s = ground arith in
      let c = base - npos in
      let ih = read_chain_lem base ns 0 (suc s - (base - npos)) u.1 (omega arith) (omega arith) in
      let left : npos + suc s ≡ base + (suc s - (base - npos)) = omega arith in
      let steps : suc ((0 + (suc s - (base - npos))) / base) ≡ (npos + suc s) / base =
        rw left (div_one_more base (suc s - (base - npos)) (omega arith)) in
      read_chain_spills base n ns npos s u.0 h lt
      ∙ rw (ih, steps)
          (unfold flat in
            rw (
              take-drop-append (base - npos) npos (suc s) n (flat ns) (omega arith) (omega arith),
              take_all (base - npos) (drop npos n) (omega (arith, length-drop npos n)),
            ))
]
