-- ===== src/ByteArray/Buffers/Gather.antt =====
-- The bytes that the iovecs of src/bytearray.cpp stand for.
use mathlib.Core.List.{append-nil}
use cool.Base.{
  ℕ, zero, suc, ◌+◌, ◌-◌, ◌/◌, ◌%◌, ◌≤◌, ◌<◌, ◌≡◌, refl, sym, ap, ◌∙◌, ◌⊎◌, inl, inr, Bool, true,
  false, List, [], ◌∷◌, ◌++◌, Option, none, some, arith, Bool-cases, length, take, drop, get_elem?,
  leb, ◌==◌, if◌then◌else◌,
}
use cool.ByteArray.{ByteArray, ok, sub_size, read_chain, get_read_size}
use cool.ByteArray.Capacity.{IsValid}
use cool.ByteArray.Contents.{contents}
use cool.ByteArray.Read.{slice_at_cur}
use cool.ByteArray.Write.{cur_inside}
use cool.ByteArray.Buffers.{Iovec, iov_chain, clamp, get_read_buffers}

abbrev pub node_or_nil : Option (List ℕ) → List ℕ
node_or_nil none = []
node_or_nil (some n) = n

-- What writev sends for the iovecs, in order.
unfoldable pub gathered : List (List ℕ) → List Iovec → List ℕ
gathered nodes [] = []
gathered nodes (v ∷ vs) =
    take v.len (drop v.offset (node_or_nil (get_elem? nodes v.node))) ++ gathered nodes vs

pub drop_head :
    (nodes : List (List ℕ)) (i : ℕ) (n : List ℕ) (ns : List (List ℕ))
    → drop i nodes ≡ n ∷ ns
    → (get_elem? nodes i ≡ some n) × (drop (suc i) nodes ≡ ns)
drop_head [] zero n ns h = absurd cc
drop_head [] (suc i) n ns h = absurd cc
drop_head (x ∷ nodes) zero n ns h = (cc, cc)
drop_head (x ∷ nodes) (suc i) n ns h = drop_head nodes i n ns h

-- One node of both loops.
abbrev Chain : Type 0
Chain = Option (List ℕ × ℕ)

fits_or_spills :
    (fits : Bool) (one : List ℕ × ℕ) (rest : Chain) (front bs : List ℕ) (moved : ℕ)
    → (if fits
        then some one
        else elim rest [ none ↦ none | some (xs, k) ↦ some (front ++ xs, suc k) ])
      ≡ some (bs, moved)
    → ((fits ≡ true) × (one.0 ≡ bs))
      ⊎ ((fits ≡ false) × ((xs : List ℕ) × (k : ℕ) × (rest ≡ some (xs, k)) × (front ++ xs ≡ bs)))
fits_or_spills true one rest front bs moved e = inl (refl, ap (λ o. (from_some o)) e)
  where
    from_some : Chain → List ℕ
    from_some none = []
    from_some (some p) = p.0
fits_or_spills false one none front bs moved e = absurd cc
fits_or_spills false one (some (xs, k)) front bs moved e =
    inr (refl, (xs, k, refl, ap (λ o. (from_some o)) e))
  where
    from_some : Chain → List ℕ
    from_some none = []
    from_some (some p) = p.0

pub iov_chain-read_chain :
    (nodes ns : List (List ℕ)) (i npos n : ℕ) (bs : List ℕ) (moved : ℕ)
    → drop i nodes ≡ ns
    → read_chain ns npos n ≡ some (bs, moved)
    → (vs : List Iovec) × (iov_chain ns i npos n ≡ some vs) × (gathered nodes vs ≡ bs)
unfolding read_chain iov_chain gathered
iov_chain-read_chain nodes ns i npos zero bs moved d e = ([], refl, ap bytes e)
  where
    bytes : Chain → List ℕ
    bytes none = []
    bytes (some p) = p.0
iov_chain-read_chain nodes [] i npos (suc s) bs moved d e = absurd cc
iov_chain-read_chain nodes (x ∷ ns) i npos (suc s) bs moved d e =
    let (here, next) = drop_head nodes i x ns d in
    let ncap = sub_size (length x) npos in
    elim (fits_or_spills (leb (suc s) ncap)
      (take (suc s) (drop npos x), if length x == npos + suc s then 1 else 0)
      (read_chain ns 0 (suc s - ncap)) (take ncap (drop npos x)) bs moved e) [
        | inl (f, q) ↦ (
          record { node = i; offset = npos; len = suc s } ∷ [],
          rw f refl,
          rw here (append-nil (take (suc s) (drop npos x)) ∙ q),
        )
        | inr (f, (xs, k, r, q)) ↦
            let (vs, c, g) = iov_chain-read_chain nodes ns (suc i) 0 (suc s - ncap) xs k next r in
            (record { node = i; offset = npos; len = ncap } ∷ vs, rw (f, c) refl, rw (here, g) q)
      ]

-- How many of `len` bytes are there to read.
abbrev pub readable : ByteArray → ℕ → ℕ
readable b len = clamp len (get_read_size b)

pub readable_le : (b : ByteArray) (len : ℕ) → IsValid b → b.pos + readable b len ≤ b.size
readable_le b len v = ground (arith, v.pos-le-size)

get_read_buffers_steps :
    (b : ByteArray) (len k : ℕ) (vs : List Iovec)
    → (readable b len == 0) ≡ false
    → b.cur ≡ some k
    → iov_chain (drop k b.nodes) k (b.pos % b.base_size) (readable b len) ≡ some vs
    → get_read_buffers b len ≡ ok (vs, readable b len)
unfolding get_read_buffers
get_read_buffers_steps b len k vs z c e = rw (z, c) (rw e refl)

-- On a valid buffer with a node under its position, getReadBuffers answers how many of `len` bytes are
-- unread, and its iovecs stand for just these bytes of the contents, in order.
pub get_read_buffers_lem :
    (b : ByteArray) (len : ℕ)
    → IsValid b
    → b.pos < b.capacity
    → (vs : List Iovec) × (get_read_buffers b len ≡ ok (vs, readable b len))
      × (gathered b.nodes vs ≡ take (readable b len) (drop b.pos (contents b)))
unfolding gathered get_read_buffers
get_read_buffers_lem b len v lt = elim (Bool-cases (readable b len == 0)) [
  | inl z ↦
      let none_left : readable b len ≡ 0 = ground arith in
      ([], nothing z none_left, sym (ap (λ n. take n (drop b.pos (contents b))) none_left))
  | inr z ↦
      let (at, _) = cur_inside b v lt in
      let (vs, e, g) =
        iov_chain-read_chain b.nodes (drop (b.pos / b.base_size) b.nodes) (b.pos / b.base_size)
          (b.pos % b.base_size) (readable b len) _ _ refl
          (slice_at_cur b (readable b len) v lt (readable_le b len v)) in
      (vs, get_read_buffers_steps b len (b.pos / b.base_size) vs z at e, g)
]
  where
    nothing :
        (readable b len == 0) ≡ true
        → readable b len ≡ 0
        → get_read_buffers b len ≡ ok ([], readable b len)
    nothing z e = rw (get_read_buffers, z) (ap (λ n. ok ([], n)) (sym e))
