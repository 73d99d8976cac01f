-- ===== src/StopWait/Client.antt =====
-- StopWaitClient.cpp. Acknowledgements are the log of the datagrams handed to `sendto`, whose
-- result the worker ignores.
pub mod Naming
pub mod Accepting
pub mod Delivery
mod Tests
use reliable_data_transfer.Base.{
  ℕ, ◌+◌, ◌%◌, ◌^◌, Bool, true, false, not, ◌||◌, ◌&&◌, List, [], Option, none, some, ◌==◌,
  if◌then◌else◌, ◌>>=◌, u32,
}
use reliable_data_transfer.Packet.{
  Packet, AckPacket, create_ack_packet, extract_pure_data, verify_checksum, pck_header_size,
}
use reliable_data_transfer.DataManagers.{DataSink, feed_next_data}
use reliable_data_transfer.Socket.{Recv, receive_packet, send_ack_packet, zero_ack}
use reliable_data_transfer.Reception.{receive_while}

-- The fields of the worker, the locals of its loop, its sink and what it has sent.
pub record StopWaitClient : Type 0 where
  pub error : Bool
  pub time_out : Bool
  pub last_pack : AckPacket
  pub sent_one : Bool
  pub ack_no : ℕ
  pub end : Bool
  pub sink : DataSink
  pub sent : List (List ℕ)

unfoldable pub new_client : DataSink → StopWaitClient
new_client sink = record {
  error = false;
  time_out = false;
  last_pack = zero_ack;
  sent_one = false;
  ack_no = 0;
  end = false;
  sink = sink;
  sent = [];
}

-- The packet with the awaited number: data, or the empty packet at the end.
pub accept : StopWaitClient → Packet → Option StopWaitClient
accept c packet =
    let ack = create_ack_packet c.ack_no in
    if not (packet.len == pck_header_size)
    then (do
      core_data ← extract_pure_data packet
      sink ← feed_next_data c.sink core_data packet.seqno
      some (record c {
        sink = sink;
        last_pack = ack;
        ack_no = u32 (c.ack_no + 1);
        sent = send_ack_packet c.sent ack;
      }))
    else some (record c {
      last_pack = ack;
      sent = send_ack_packet c.sent ack;
      ack_no = u32 (c.ack_no + 1);
      end = true;
    })

-- The body of the loop behind the reception.
pub handle : StopWaitClient → Packet → Option StopWaitClient
handle c packet =
    if c.error || c.time_out
    then some c
    else if verify_checksum packet && (packet.seqno == c.ack_no)
    then accept (record c { sent_one = true }) packet
    else if c.sent_one
    then some (record c { sent = send_ack_packet c.sent c.last_pack })
    else some c

unfoldable pub receive_one : StopWaitClient → Recv → Option StopWaitClient
receive_one c r = do
  reception ← receive_packet r
  handle (record c { error = reception.error; time_out = reception.time_out }) reception.packet

unfoldable pub recv_message : StopWaitClient → List Recv → Option StopWaitClient
recv_message = receive_while (λ c. not c.end) receive_one
