-- ===== src/Socket/Runs.antt =====
-- A Socket of src/socket.cpp that connects and closes, and the theorem at it.
use cool.Fd.{FdCtx}
use cool.Hook.{World}
use cool.Socket.Options.{
  send_timeout, recv_timeout, set_send_timeout, set_recv_timeout, timeouts_lem,
}
use cool.Base.{◌+◌, ◌≡◌, refl, arith, inl, [], ◌∷◌, false, true, none, some, if◌then◌else◌}
use cool.ByteArray.{ByteArray, ok}
use cool.ByteArray.Capacity.{IsValid}
use cool.ByteArray.Write.{Advanced}
use cool.Socket.Received.{read_array_lem}
use cool.Socket.Arrays.{write_array, read_array, Sent, write_array_lem}
use cool.Socket.{
  Socket, new_socket, new_sock, ensure_sock, local_address, remote_address, is_valid, connect,
  close,
}
use cool.Socket.Balance.{Reached, made, moved, connects, life_lem}

abbrev client : Socket
client = (connect (new_socket 2 1 0) 2 (some 7) true (some 1) (some 2)).0

abbrev client_life : Reached client
client_life = moved (made 2 1 0) (connects (new_socket 2 1 0) 2 (some 7) true (some 1) (some 2))

life_lem_example :
    (client.opened ≡ client.closed + (if is_valid client then 1 else 0))
    × ((close client).0.sock ≡ none)
    × ((close client).0.opened ≡ (close client).0.closed)
life_lem_example = life_lem client client_life

abbrev context : FdCtx
context = record {
  is_init = true;
  is_socket = true;
  is_closed = false;
  sys_nonblock = true;
  user_nonblock = false;
  fd = 1;
  recv_timeout = 500;
  send_timeout = 700;
}

abbrev hooked : World
hooked = record {
  iom = record { contexts = []; pending = 0; interest = λ _. none; scheduled = [] };
  timers = record {
    objs = λ _. record { recurring = false; ms = 0; next = 0; cb = none };
    timers = [];
    tickled = false;
    previous_time = 0;
    front_inserts = 0;
  };
  fds = none ∷ some context ∷ [];
  kernel = record { stat = λ _. some true; nonblock = λ _. true };
  hook_enable = true;
  scheduler = some 4;
  fiber = 6;
}

abbrev on_one : Socket
on_one = record client { sock = some 1 }

timeouts_lem_example :
    (send_timeout (set_send_timeout hooked on_one 1500) on_one ≡ some 1500)
    × (recv_timeout (set_recv_timeout hooked on_one 1500) on_one ≡ some 1500)
    × (recv_timeout (set_send_timeout hooked on_one 1500) on_one ≡ some 500)
    × (send_timeout (set_recv_timeout hooked on_one 1500) on_one ≡ some 700)
timeouts_lem_example = timeouts_lem hooked on_one 1 1500 context refl refl refl (omega arith)

-- Three bytes, of which the first is read.
abbrev one_read : ByteArray
one_read = record {
  base_size = 4;
  nodes = (7 ∷ 8 ∷ 9 ∷ 0 ∷ []) ∷ [];
  pos = 1;
  capacity = 4;
  size = 3;
  little = false;
  cur = some 0;
}

one_read-IsValid : IsValid one_read
one_read-IsValid = record {
  positive = omega arith;
  uniform = (refl, tt);
  rooted = omega arith;
  full = refl;
  pos-le-size = omega arith;
  size-le-capacity = omega arith;
  at_cur = refl;
}

write_array_lem_example :
    (b' : ByteArray) × (write_array (some on_one) (λ bytes. some 1) one_read 5 ≡ ok (b', some 1))
    × Sent one_read 1 b'
unfolding new_socket new_sock ensure_sock connect local_address remote_address
write_array_lem_example =
    write_array_lem on_one (λ bytes. some 1) one_read 5 1 refl one_read-IsValid (omega arith) refl
      (omega arith)

read_array_lem_example :
    (b' : ByteArray) × (read_array (some on_one) (some (5 ∷ 6 ∷ [])) one_read 3 ≡ ok (b', some 2))
    × Advanced one_read (5 ∷ 6 ∷ []) b'
unfolding new_socket new_sock ensure_sock connect local_address remote_address
read_array_lem_example =
    read_array_lem on_one one_read (5 ∷ 6 ∷ []) 3 refl one_read-IsValid (omega arith) (omega arith)
      (inl (omega arith))
