-- ===== src/Socket/Received.antt =====
-- What SocketStream::read of src/socket_stream.cpp leaves in a ByteArray.
use mathlib.Core.Path.{subst}
use native.Mathlib.Nat.{div-add-mod', mod-lt}
use cool.Base.{
  ℕ, zero, suc, ◌+◌, ◌*◌, ◌/◌, ◌%◌, ◌≤◌, ◌<◌, ◌≡◌, refl, sym, ap, ◌∙◌, true, false, List, ◌++◌,
  Option, some, arith, length, take, drop, length-drop, ltb, ◌==◌, if◌then◌else◌,
}
use cool.ByteArray.{
  ByteArray, Outcome, ok, thrown, fault, ◌>>=◌, deref, node_at, get_capacity, add_capacity,
  set_position,
}
use cool.ByteArray.Flat.{div_split}
use cool.ByteArray.Chain.{read_chain_lem, write_chain-Written}
use cool.ByteArray.Contents.{Uniform-drop}
use cool.ByteArray.Capacity.{IsValid, Enough, add_capacity-IsValid, add_capacity-Enough}
use cool.ByteArray.Write.{
  Advanced, add_capacity-Keeps, cur_inside, room_behind, store_lem, store-Advanced,
}
use cool.ByteArray.Refine.{room_of, advance_from}
use cool.ByteArray.Position.{seek_lem}
use cool.ByteArray.Buffers.{Iovec, iov_chain, get_write_buffers}
use cool.ByteArray.Buffers.Gather.{iov_chain-read_chain}
use cool.Socket.{Socket}
use cool.Socket.Arrays.{advance, scattered, read_array}
use cool.Socket.Scatter.{scattered-write_chain}

-- The buffer behind a write of `bytes` that leaves the nodes `nodes` and moves m_cur to index `i`.
abbrev behind : ByteArray → List ℕ → List (List ℕ) → ℕ → ByteArray
behind b bytes nodes i = record b {
  nodes = nodes;
  cur = node_at nodes i;
  pos = b.pos + length bytes;
  size = if ltb b.size (b.pos + length bytes) then b.pos + length bytes else b.size;
}

from_ok : ByteArray → Outcome ByteArray → ByteArray
from_ok b (ok a) = a
from_ok b thrown = b
from_ok b fault = b

ok_same : (a b : ByteArray) → ok a ≡ ok b → a ≡ b
unfolding from_ok
ok_same a b e = ap (from_ok a) e

set_position-behind :
    (b : ByteArray) (bytes : List ℕ) (nodes : List (List ℕ)) (i : ℕ)
    → IsValid (behind b bytes nodes i)
    → i ≡ (b.pos + length bytes) / b.base_size
    → set_position (record b { nodes = nodes }) (b.pos + length bytes) ≡ ok (behind b bytes nodes i)
unfolding set_position
set_position-behind b bytes nodes i v e =
    let val = b.pos + length bytes in
    let within : val ≤ b.capacity = omega (arith, v.pos-le-size, v.size-le-capacity) in
    let inside : ltb b.capacity val ≡ false = ground arith in
    let s =
      seek_lem b.base_size nodes val 0 v.positive v.uniform v.rooted (omega (arith, v.full)) in
    let at : 0 + val / b.base_size ≡ i = omega (arith, e) in rw (inside, s, at) refl

advanced :
    (b b' : ByteArray) (nodes : List (List ℕ)) (n : ℕ)
    → 0 < n
    → set_position (record b { nodes = nodes }) (b.pos + n) ≡ ok b'
    → advance (record b { nodes = nodes }) (some n) ≡ ok (b', some n)
unfolding advance
advanced b b' nodes zero q e = absurd (omega arith)
advanced b b' nodes (suc n) q e = rw e refl

-- The iovecs of a write of at most `len` bytes, and the buffer with the bytes in them.
filled :
    (b : ByteArray) (len : ℕ) (bytes : List ℕ)
    → IsValid b
    → 0 < length bytes
    → length bytes ≤ len
    → b.pos + len ≤ b.capacity
    → (vs : List Iovec) × (k : ℕ) × (b' : ByteArray) × (b.cur ≡ some k)
      × (iov_chain (drop k b.nodes) k (b.pos % b.base_size) len ≡ some vs)
      × (advance (record b { nodes = scattered b.nodes vs bytes }) (some (length bytes))
          ≡ ok (b', some (length bytes)))
      × Advanced b bytes b'
filled b len bytes v p l room =
    let base = b.base_size in
    let k = b.pos / base in
    let r = b.pos % base in
    let n = length bytes in
    let lt : b.pos < b.capacity = omega (arith, p, l, room) in
    let (at, inside) = cur_inside b v lt in
    let split : k * base + r ≡ b.pos = div-add-mod' b.pos base in
    let uni = Uniform-drop base k b.nodes v.uniform in
    let short : r < base = mod-lt b.pos v.positive in
    let space : (m : ℕ) → m ≤ len → r + m ≤ length (drop k b.nodes) * base = λ m h.
      rw (length-drop k b.nodes)
        (room_behind base k r m (length b.nodes) inside (omega (arith, v.full, h, room, split))) in
    let (vs, io, _) =
      iov_chain-read_chain b.nodes (drop k b.nodes) k r len _ _ refl
        (read_chain_lem base (drop k b.nodes) r len uni short (space len (omega arith))) in
    let (ns', moved, e, w) =
      write_chain-Written base (drop k b.nodes) r bytes uni short (space n l) in
    let nodes' = take k b.nodes ++ ns' in
    let (b2, f, a) = store-Advanced b bytes v p (omega (arith, l, room)) in
    let same : behind b bytes nodes' (k + moved) ≡ b2 =
      ok_same _ _ (sym (store_lem b bytes k moved ns' at e) ∙ f) in
    let done : Advanced b bytes (behind b bytes nodes' (k + moved)) =
      subst (Advanced b bytes) (sym same) a in
    let there : k + moved ≡ (b.pos + n) / base =
      ap (λ (t : ℕ). k + t) w.steps ∙ div_split b.pos n base v.positive in
    let put =
      scattered-write_chain b.nodes (drop k b.nodes) k r len vs bytes ns' moved refl io l e in
    (
      vs,
      k,
      behind b bytes nodes' (k + moved),
      at,
      io,
      ap (λ t. advance (record b { nodes = t }) (some n)) put
          ∙ advanced b _ nodes' n p
              (set_position-behind b bytes nodes' (k + moved) done.valid there),
      done,
    )

deref_lem :
    {A B : Type 0} (o : Option A) (f : A → Outcome B) (a : A) → o ≡ some a → deref o >>= f ≡ f a
deref_lem o f a e = rw e refl

get_write_buffers_lem :
    (b : ByteArray) (len k : ℕ) (vs : List Iovec)
    → 0 < len
    → (add_capacity b len).cur ≡ some k
    → iov_chain
        (drop k (add_capacity b len).nodes)
        k
        ((add_capacity b len).pos % (add_capacity b len).base_size)
        len
      ≡ some vs
    → get_write_buffers b len ≡ ok (vs, len, add_capacity b len)
unfolding get_write_buffers
get_write_buffers_lem b len k vs p e io =
    let some_asked : (len == 0) ≡ false = ground arith in
    rw some_asked (
      deref_lem (add_capacity b len).cur _ k e
      ∙ deref_lem _ (λ us. ok (us, len, add_capacity b len)) vs io)

read_array_steps :
    (s : Socket) (b b' : ByteArray) (bytes : List ℕ) (len : ℕ) (vs : List Iovec)
    → s.is_connected ≡ true
    → get_write_buffers b len ≡ ok (vs, len, b')
    → read_array (some s) (some bytes) b len
      ≡ advance (record b' { nodes = scattered b'.nodes vs bytes }) (some (length bytes))
unfolding read_array
read_array_steps s b b' bytes len vs c e = rw (c, e) refl

-- On a connected socket and a valid buffer for which addCapacity makes enough room, read(ba, length)
-- that receives at least a byte, at most `len`, answers their number and leaves the buffer as a write
-- of these bytes would: valid, with the bytes spliced into the contents at the position, and the
-- position behind them.
pub read_array_lem :
    (s : Socket) (b : ByteArray) (bytes : List ℕ) (len : ℕ)
    → s.is_connected ≡ true
    → IsValid b
    → 0 < length bytes
    → length bytes ≤ len
    → Enough b.base_size (get_capacity b) len
    → (b' : ByteArray) × (read_array (some s) (some bytes) b len ≡ ok (b', some (length bytes)))
      × Advanced b bytes b'
read_array_lem s b bytes len c v p l enough =
    let b1 = add_capacity b len in
    let v1 = add_capacity-IsValid b len v in
    let room = room_of b1 len v1 ((add_capacity-Enough b len v).1 enough) in
    let (vs, k, b', at, io, a, done) = filled b1 len bytes v1 p l room in
    (
      b',
      read_array_steps s b b1 bytes len vs c
            (get_write_buffers_lem b len k vs (omega (arith, p, l)) at io)
          ∙ a,
      advance_from b b1 b' bytes (add_capacity-Keeps b len v) done,
    )
