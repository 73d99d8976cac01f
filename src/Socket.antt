-- ===== src/Socket.antt =====
-- utils/socketUtils.cpp: receiving, sending and time. The kernel is a parameter: what one
-- `recvfrom` leaves behind is a `Recv`, and the other calls are the functions of a `Host`.
pub mod Genuine
pub mod Samples
pub mod Wire
pub mod Lossless
use reliable_data_transfer.Base.{
  ℕ, ◌+◌, ◌-◌, ◌*◌, Bool, true, false, List, [], ◌∷◌, ◌++◌, Option, none, some, ltb, leb,
  if◌then◌else◌, ◌>>=◌, length, take, drop,
}
use reliable_data_transfer.Packet.{Packet, AckPacket, zero_bytes, pck_data_size, pck_header_size}
use reliable_data_transfer.Serial.{
  serialize_packet, serialize_ackpacket, deserialize_packet, deserialize_ackpacket,
}

-- One call of `recvfrom`: the datagram (empty where the call returns 0 or fails), what the
-- uninitialised buffer held before, and whether `errno` is EAGAIN or EWOULDBLOCK afterwards.
pub record Recv : Type 0 where
  pub bytes : List ℕ
  pub stack : List ℕ
  pub would_block : Bool

-- What a receive function returns, with its two out-parameters.
pub record Reception (P : Type 0) : Type 0 where
  pub packet : P
  pub error : Bool
  pub time_out : Bool

-- A datagram longer than the buffer is cut, and a shorter one leaves the buffer's end as it was.
unfoldable pub fill_buffer : ℕ → Recv → List ℕ
fill_buffer capacity r = take capacity r.bytes ++ drop (length (take capacity r.bytes)) r.stack

abbrev pub zero_packet : Packet
zero_packet = record { check_sum = 0; len = 0; seqno = 0; payload = zero_bytes pck_data_size }

abbrev pub zero_ack : AckPacket
zero_ack = record { cksum = 0; len = 0; ackno = 0 }

-- The overload with a timeout.
pub receive_packet : Recv → Option (Reception Packet)
receive_packet r =
    if ltb 0 (length r.bytes)
    then (do
      packet ← deserialize_packet (fill_buffer (pck_data_size + pck_header_size) r)
      some (record { packet = packet; error = false; time_out = false }))
    else some (record { packet = zero_packet; error = true; time_out = r.would_block })

pub receive_ack_packet : Recv → Option (Reception AckPacket)
receive_ack_packet r =
    if ltb 0 (length r.bytes)
    then (do
      packet ← deserialize_ackpacket (fill_buffer pck_header_size r)
      some (record { packet = packet; error = false; time_out = false }))
    else some (record { packet = zero_ack; error = true; time_out = r.would_block })

-- The datagrams handed to `sendto`, in order, with one more.
pub send_ack_packet : List (List ℕ) → AckPacket → List (List ℕ)
send_ack_packet sent pack = sent ++ serialize_ackpacket pack ∷ []

-- The system calls and the random draw. Times are in microseconds. `drop_packet` is the outcome of
-- `rand() / RAND_MAX < loss_prob`, `sendto` says whether the call returned more than 0, `recvfrom`
-- is given the timeout that `setsockopt` has set, and `has_data` is `FIONREAD` being positive.
-- `keeps_freed` says whether the key of an entry that has been erased from a map can still be read
-- in its old place, which the language leaves undefined.
pub record Host : Type 1 where
  pub World : Type 0
  pub gettimeofday : World → ℕ × World
  pub drop_packet : World → Bool × World
  pub sendto : List ℕ → World → Bool × World
  pub recvfrom : ℕ → World → Recv × World
  pub has_data : World → Bool × World
  pub keeps_freed : Bool

-- TIMEOUT_SEC and TIMEOUT_MSEC as one number of microseconds.
abbrev pub timeout : ℕ
timeout = 0 * 1000000 + 1000

-- `currentDiff <= diff`, in a form without negative numbers: the clock may have been set back.
unfoldable pub is_over : (tv old_time new_time : ℕ) → Bool
is_over tv old_time new_time = leb (tv + old_time) new_time

-- What is left of the timeout where it is not over.
unfoldable pub remaining : (tv old_time new_time : ℕ) → ℕ
remaining tv old_time new_time = tv + old_time - new_time

module _ (h : Host) where
  open h use {World, gettimeofday, drop_packet, sendto, recvfrom}

  -- The socket of a server worker: the world, and the datagrams handed to `sendto` so far.
  pub record Net : Type 0 where
    pub world : World
    pub sent : List (List ℕ)

  unfoldable pub time_now : Net → ℕ × Net
  time_now net = let (now, world) = gettimeofday net.world in (now, record net { world = world })

  unfoldable pub has_data : Net → Bool × Net
  has_data net =
      let (some_data, world) = Host.has_data h net.world in
      (some_data, record net { world = world })

  unfoldable pub send_packet : Net → Packet → Bool × Net
  send_packet net pack =
      let bytes = serialize_packet pack in
      let (done, world) = sendto bytes net.world in
      (done, record { world = world; sent = net.sent ++ bytes ∷ [] })

  -- `if (r < loss_prob) sent = true; else sent = send_packet(...)`.
  unfoldable pub transmit : Net → Packet → Bool × Net
  transmit net pack =
      let (lost, world) = drop_packet net.world in
      if lost
      then (true, record net { world = world })
      else send_packet (record net { world = world }) pack

  -- Whether the timeout is over, what is left of it, and the time.
  unfoldable pub update_remaining_timeout :
      ℕ → ℕ → Net → record { over : Bool; tv : ℕ; old_time : ℕ; net : Net }
  update_remaining_timeout tv old_time net =
      let (now, net) = time_now net in
      record {
        over = is_over tv old_time now;
        tv = remaining tv old_time now;
        old_time = now;
        net = net;
      }

  -- The same with the old time kept.
  unfoldable pub update_remaining_timeout_nc :
      ℕ → ℕ → Net → record { over : Bool; tv : ℕ; net : Net }
  update_remaining_timeout_nc tv old_time net =
      let (now, net) = time_now net in
      record { over = is_over tv old_time now; tv = remaining tv old_time now; net = net }

  -- `receive_ack_packet` on the worker's socket.
  unfoldable pub receive_ack_from : Net → ℕ → Option (Reception AckPacket × Net)
  receive_ack_from net tv =
      let (r, world) = recvfrom tv net.world in
      receive_ack_packet r >>= λ c. some (c, record net { world = world })

  -- `!mini_timeout || hasData(...)`.
  unfoldable pub may_receive : Bool → Net → Bool × Net
  may_receive mini_timeout net = if mini_timeout then has_data net else (true, net)
