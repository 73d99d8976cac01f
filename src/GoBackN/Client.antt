-- ===== src/GoBackN/Client.antt =====
-- GoBackClient.cpp. Packets out of order are dropped without an acknowledgement.
pub mod Naming
pub mod Accepting
pub mod Delivery
mod Tests
use reliable_data_transfer.Base.{
  ℕ, ◌+◌, ◌%◌, ◌^◌, Bool, true, false, not, ◌||◌, ◌&&◌, List, [], Option, none, some, ◌==◌,
  if◌then◌else◌, ◌>>=◌, u32,
}
use reliable_data_transfer.Packet.{
  Packet, create_ack_packet, extract_pure_data, verify_checksum, pck_header_size,
}
use reliable_data_transfer.DataManagers.{DataSink, feed_next_data}
use reliable_data_transfer.Socket.{Recv, receive_packet, send_ack_packet}
use reliable_data_transfer.Reception.{receive_while}

-- The fields of the worker, the local of its loop, its sink and what it has sent.
pub record GoBackClient : Type 0 where
  pub error : Bool
  pub timeout : Bool
  pub base_ack_no : ℕ
  pub end : Bool
  pub sink : DataSink
  pub sent : List (List ℕ)

unfoldable pub new_client : DataSink → GoBackClient
new_client sink = record {
  error = false;
  timeout = false;
  base_ack_no = 0;
  end = false;
  sink = sink;
  sent = [];
}

-- The packet with the awaited number: data, or the empty packet at the end.
pub accept : GoBackClient → Packet → Option GoBackClient
accept c packet =
    let c = record c { base_ack_no = u32 (c.base_ack_no + 1) } in
    let ack_packet = create_ack_packet packet.seqno in
    if not (packet.len == pck_header_size)
    then (do
      core_data ← extract_pure_data packet
      sink ← feed_next_data c.sink core_data packet.seqno
      some (record c { sink = sink; sent = send_ack_packet c.sent ack_packet }))
    else some (record c { sent = send_ack_packet c.sent ack_packet; end = true })

-- The body of the loop behind the reception.
pub handle : GoBackClient → Packet → Option GoBackClient
handle c packet =
    if c.error || c.timeout
    then some c
    else if verify_checksum packet && (packet.seqno == c.base_ack_no)
    then accept c packet
    else some c

unfoldable pub receive_one : GoBackClient → Recv → Option GoBackClient
receive_one c r = do
  reception ← receive_packet r
  handle (record c { error = reception.error; timeout = reception.time_out }) reception.packet

unfoldable pub recv_message : GoBackClient → List Recv → Option GoBackClient
recv_message = receive_while (λ c. not c.end) receive_one
