-- ===== src/SelectiveRepeat/Client.antt =====
-- SelectiveRepeatClient.cpp. Packets inside the window are kept until their turn.
pub mod Window
pub mod Naming
pub mod Accepting
pub mod Receiving
pub mod Delivery
mod Tests
use reliable_data_transfer.Base.{
  ℕ, zero, suc, ◌+◌, ◌-◌, ◌%◌, ◌^◌, Bool, true, false, not, ◌||◌, ◌&&◌, List, [], Option, none,
  some, ◌==◌, ltb, leb, if◌then◌else◌, ◌>>=◌, u32, length,
}
use reliable_data_transfer.Base.Maps.{lookup, has, insert, erase}
use reliable_data_transfer.Packet.{
  Packet, PacketCoreData, create_ack_packet, extract_pure_data, verify_checksum, pck_header_size,
}
use reliable_data_transfer.DataManagers.{DataSink, feed_next_data}
use reliable_data_transfer.Socket.{Recv, receive_packet, send_ack_packet}
use reliable_data_transfer.Reception.{receive_while}

-- The fields of the worker, the locals of its loop, its sink and what it has sent.
pub record SelectiveRepeatClient : Type 0 where
  pub error : Bool
  pub time_out : Bool
  pub base_ack_no : ℕ
  pub data_received : List (ℕ × PacketCoreData)
  pub last_ack_no : ℕ
  pub end : Bool
  pub sink : DataSink
  pub sent : List (List ℕ)

unfoldable pub new_client : DataSink → SelectiveRepeatClient
new_client sink = record {
  error = false;
  time_out = false;
  base_ack_no = 0;
  data_received = [];
  last_ack_no = 0xFFFFFFFF;
  end = false;
  sink = sink;
  sent = [];
}

-- `handleWindow`: each round takes one entry out of the map, so the map's size is fuel enough.
unfoldable pub handle_window : ℕ → SelectiveRepeatClient → Option SelectiveRepeatClient
handle_window zero c = some c
handle_window (suc fuel) c = elim (lookup c.base_ack_no c.data_received) [
  | none ↦ some c
  | some core ↦ feed_next_data c.sink core c.base_ack_no >>= λ sink. handle_window fuel (record c {
    sink = sink;
    base_ack_no = u32 (c.base_ack_no + 1);
    data_received = erase c.base_ack_no c.data_received;
  })
]

unfoldable pub acknowledge : SelectiveRepeatClient → ℕ → SelectiveRepeatClient
acknowledge c seqno = record c { sent = send_ack_packet c.sent (create_ack_packet seqno) }

-- `if (!data_received.count(seqno)) data_received.insert(...)`.
unfoldable pub store : SelectiveRepeatClient → ℕ → PacketCoreData → SelectiveRepeatClient
store c seqno core =
    if not (has (lookup seqno c.data_received))
    then record c { data_received = insert seqno core c.data_received }
    else c

-- A packet inside the window: data, or the empty packet at the end.
unfoldable pub accept : SelectiveRepeatClient → Packet → Option SelectiveRepeatClient
accept c packet =
    if not (packet.len == pck_header_size)
    then (do
      core_data ← extract_pure_data packet
      let c = acknowledge (store c packet.seqno core_data) packet.seqno
      handle_window (length c.data_received) c)
    else some (record (acknowledge c packet.seqno) { end = true; last_ack_no = packet.seqno })

-- The lowest number that is acknowledged again, `minPack`.
unfoldable pub min_pack : ℕ → ℕ → ℕ
min_pack base window = if ltb window base then base - window else 0

-- The body of the loop behind the reception.
unfoldable pub handle : ℕ → SelectiveRepeatClient → Packet → Option SelectiveRepeatClient
handle window c packet =
    if c.error || c.time_out
    then some c
    else if verify_checksum packet
    then if ltb packet.seqno c.base_ack_no && leb (min_pack c.base_ack_no window) packet.seqno
      then some (acknowledge c packet.seqno)
      else if not (ltb packet.seqno c.base_ack_no)
          && not (leb (u32 (c.base_ack_no + window)) packet.seqno)
      then accept c packet
      else some c
    else some c

unfoldable pub receive_one : ℕ → SelectiveRepeatClient → Recv → Option SelectiveRepeatClient
receive_one window c r = do
  reception ← receive_packet r
  handle window (record c { error = reception.error; time_out = reception.time_out })
      reception.packet

pub running : SelectiveRepeatClient → Bool
running c = not c.end || not (c.base_ack_no == c.last_ack_no)

unfoldable pub recv_message : ℕ → SelectiveRepeatClient → List Recv → Option SelectiveRepeatClient
recv_message window = receive_while running (receive_one window)
