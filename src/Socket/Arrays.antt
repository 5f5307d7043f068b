-- ===== src/Socket/Arrays.antt =====
-- SocketStream::read and SocketStream::write over a ByteArray (src/socket_stream.cpp). `sends` is what
-- the system does with the bytes of the iovecs: how many it sends, or `none` for -1; `receives` are the
-- bytes that it stores into them, or `none`.
use cool.Base.{
  ℕ, zero, suc, ◌+◌, ◌≤◌, ◌<◌, ◌≡◌, refl, ap, ◌∙◌, Bool, true, false, List, [], ◌∷◌, Option, none,
  some, arith, length, take, drop, get_elem?, set, overwrite, if◌then◌else◌,
}
use cool.ByteArray.{ByteArray, Outcome, ok, ◌>>=◌, set_position}
use cool.ByteArray.Buffers.{Iovec, get_read_buffers, get_write_buffers}
use cool.ByteArray.Buffers.Gather.{
  gathered, node_or_nil, readable, readable_le, get_read_buffers_lem,
}
use cool.ByteArray.Capacity.{IsValid}
use cool.ByteArray.Contents.{contents}
use cool.ByteArray.Position.{set_position-Moved}
use cool.Socket.{Socket, transfer}

-- isConnected() of the stream.
abbrev pub connected : Option Socket → Bool
connected none = false
connected (some s) = s.is_connected

-- ba->position(ba->position() + rt), if rt is positive.
unfoldable pub advance : ByteArray → Option ℕ → Outcome (ByteArray × Option ℕ)
advance b none = ok (b, none)
advance b (some zero) = ok (b, some zero)
advance b (some (suc n)) = do b' ← set_position b (b.pos + suc n); ok (b', some (suc n))

-- Socket::send(iovs, n) on m_sock, as in transfer.
unfoldable pub send_on : Option Socket → (List ℕ → Option ℕ) → List ℕ → Option ℕ
send_on none sends bytes = none
send_on (some s) sends bytes = transfer s (λ fd. sends bytes)

-- write(ba, length).
unfoldable pub write_array :
    Option Socket → (List ℕ → Option ℕ) → ByteArray → ℕ → Outcome (ByteArray × Option ℕ)
write_array s sends b len =
    if connected s
    then (do (vs, n) ← get_read_buffers b len; advance b (send_on s sends (gathered b.nodes vs)))
    else ok (b, none)

-- The bytes stored through the iovecs, in order.
unfoldable pub scattered : List (List ℕ) → List Iovec → List ℕ → List (List ℕ)
scattered nodes [] bytes = nodes
scattered nodes (v ∷ vs) bytes =
    scattered
      (set nodes v.node
        (overwrite v.offset (take v.len bytes) (node_or_nil (get_elem? nodes v.node))))
      vs (drop v.len bytes)

-- What recv answers.
abbrev pub received_size : Option (List ℕ) → Option ℕ
received_size none = none
received_size (some bytes) = some (length bytes)

abbrev pub store_received : ByteArray → List Iovec → Option (List ℕ) → ByteArray
store_received b vs none = b
store_received b vs (some bytes) = record b { nodes = scattered b.nodes vs bytes }

abbrev pub recv_on : Option Socket → Option (List ℕ) → Option (List ℕ)
recv_on none receives = none
recv_on (some s) receives = if s.is_connected then receives else none

-- read(ba, length).
unfoldable pub read_array :
    Option Socket → Option (List ℕ) → ByteArray → ℕ → Outcome (ByteArray × Option ℕ)
read_array s receives b len =
    if connected s
    then (do
      (vs, n, b') ← get_write_buffers b len
      advance (store_received b' vs (recv_on s receives)) (received_size (recv_on s receives)))
    else ok (b, none)

-- What a write of `r` bytes leaves of the buffer: the same contents, behind these bytes.
pub record Sent (b : ByteArray) (r : ℕ) (b' : ByteArray) : Type 0 where
  pub valid : IsValid b'
  pub now_at : b'.pos ≡ b.pos + r
  pub contents_kept : contents b' ≡ contents b

advance-Sent :
    (b : ByteArray) (r : ℕ)
    → IsValid b
    → b.pos + r ≤ b.size
    → (b' : ByteArray) × (advance b (some r) ≡ ok (b', some r)) × Sent b r b'
unfolding advance
advance-Sent b zero v h =
    (b, refl, record { valid = v; now_at = omega arith; contents_kept = refl })
advance-Sent b (suc n) v h =
    let (b', e, m) = set_position-Moved b (b.pos + suc n) v h in
    (b', rw e refl, record { valid = m.valid; now_at = m.now_at; contents_kept = m.contents_kept })

write_array_steps :
    (s : Socket) (sends : List ℕ → Option ℕ) (b : ByteArray) (len n : ℕ) (vs : List Iovec)
    → s.is_connected ≡ true
    → get_read_buffers b len ≡ ok (vs, n)
    → write_array (some s) sends b len ≡ advance b (sends (gathered b.nodes vs))
unfolding write_array send_on transfer
write_array_steps s sends b len n vs c e = rw (c, e) refl

-- The bytes that the system is handed.
abbrev pub unread : ByteArray → ℕ → List ℕ
unread b len = take (readable b len) (drop b.pos (contents b))

write_array-advance :
    (s : Socket) (sends : List ℕ → Option ℕ) (b : ByteArray) (len : ℕ)
    → s.is_connected ≡ true
    → IsValid b
    → b.pos < b.capacity
    → write_array (some s) sends b len ≡ advance b (sends (unread b len))
write_array-advance s sends b len c v lt =
    let (vs, e, g) = get_read_buffers_lem b len v lt in
    write_array_steps s sends b len (readable b len) vs c e ∙ ap (λ l. advance b (sends l)) g

-- On a connected socket and a valid buffer with a node under its position, write(ba, length) hands the
-- system the unread bytes of the contents, at most `len` of them and in order. If the system takes `r`
-- of them, the answer is `r`, the position moves behind these and the contents stay.
pub write_array_lem :
    (s : Socket) (sends : List ℕ → Option ℕ) (b : ByteArray) (len r : ℕ)
    → s.is_connected ≡ true
    → IsValid b
    → b.pos < b.capacity
    → sends (unread b len) ≡ some r
    → r ≤ readable b len
    → (b' : ByteArray) × (write_array (some s) sends b len ≡ ok (b', some r)) × Sent b r b'
write_array_lem s sends b len r c v lt k le =
    let (b', a, m) = advance-Sent b r v (omega (arith, readable_le b len v)) in
    (b', write_array-advance s sends b len c v lt ∙ ap (advance b) k ∙ a, m)

-- If the system fails, the buffer stays as it was.
pub write_array_failed :
    (s : Socket) (sends : List ℕ → Option ℕ) (b : ByteArray) (len : ℕ)
    → s.is_connected ≡ true
    → IsValid b
    → b.pos < b.capacity
    → sends (unread b len) ≡ none
    → write_array (some s) sends b len ≡ ok (b, none)
unfolding advance
write_array_failed s sends b len c v lt k =
    write_array-advance s sends b len c v lt ∙ ap (advance b) k
