-- ===== src/SelectiveRepeatCc/Client.antt =====
-- SelectiveRepeatCCClient.cpp. It has the fields of the worker without congestion control, and
-- keeps no more packets than the window has room for.
pub mod Room
pub mod Draining
pub mod Agreement
mod Tests
use reliable_data_transfer.Base.{
  ℕ, zero, suc, ◌+◌, Bool, true, false, not, ◌||◌, ◌&&◌, List, Option, none, some, ◌==◌, ltb, leb,
  if◌then◌else◌, ◌>>=◌, u32, length,
}
use reliable_data_transfer.Base.Maps.{lookup, has, insert, erase}
use reliable_data_transfer.Packet.{
  Packet, PacketCoreData, extract_pure_data, verify_checksum, pck_header_size,
}
use reliable_data_transfer.DataManagers.{feed_next_data}
use reliable_data_transfer.Socket.{Recv, receive_packet}
use reliable_data_transfer.Reception.{receive_while}
use reliable_data_transfer.SelectiveRepeat.Client.{
  SelectiveRepeatClient, acknowledge, min_pack, running,
}

-- The fields of `selectiveRepeatCCClient.h` are those of the other worker.
abbrev pub SelectiveRepeatCcClient : Type 0
SelectiveRepeatCcClient = SelectiveRepeatClient

unfoldable pub handle_window : ℕ → SelectiveRepeatCcClient → Option SelectiveRepeatCcClient
handle_window zero c = some c
handle_window (suc fuel) c = elim (lookup c.base_ack_no c.data_received) [
  | none ↦ some c
  | some core ↦ feed_next_data c.sink core c.base_ack_no >>= λ sink. handle_window fuel (record c {
    sink = sink;
    base_ack_no = u32 (c.base_ack_no + 1);
    data_received = erase c.base_ack_no c.data_received;
  })
]

-- `if (data_received.count(seqno) == 0 && data_received.size() < window) insert`.
unfoldable pub store_within :
    ℕ → SelectiveRepeatCcClient → ℕ → PacketCoreData → SelectiveRepeatCcClient
store_within window c seqno core =
    if not (has (lookup seqno c.data_received)) && ltb (length c.data_received) window
    then record c { data_received = insert seqno core c.data_received }
    else c

-- A packet inside the window.
unfoldable pub accept : ℕ → SelectiveRepeatCcClient → Packet → Option SelectiveRepeatCcClient
accept window c packet =
    if not (packet.len == pck_header_size)
    then (do
      core_data ← extract_pure_data packet
      let c = acknowledge (store_within window c packet.seqno core_data) packet.seqno
      handle_window (length c.data_received) c)
    else some (record (acknowledge c packet.seqno) { end = true; last_ack_no = packet.seqno })

-- The body of the loop behind the reception.
unfoldable pub handle : ℕ → SelectiveRepeatCcClient → Packet → Option SelectiveRepeatCcClient
handle window c packet =
    if c.error || c.time_out
    then some c
    else if verify_checksum packet
    then if ltb packet.seqno c.base_ack_no && leb (min_pack c.base_ack_no window) packet.seqno
      then some (acknowledge c packet.seqno)
      else if not (ltb packet.seqno c.base_ack_no)
          && not (leb (u32 (c.base_ack_no + window)) packet.seqno)
      then accept window c packet
      else some c
    else some c

unfoldable pub receive_one : ℕ → SelectiveRepeatCcClient → Recv → Option SelectiveRepeatCcClient
receive_one window c r = do
  reception ← receive_packet r
  handle window (record c { error = reception.error; time_out = reception.time_out })
      reception.packet

unfoldable pub recv_message :
    ℕ → SelectiveRepeatCcClient → List Recv → Option SelectiveRepeatCcClient
recv_message window = receive_while running (receive_one window)
