-- ===== src/StopWait/Client/Naming.antt =====
-- StopWaitClient.cpp: the name of the file that the worker writes to.
use reliable_data_transfer.Base.{true, List, some, ◌≡◌, refl, subst, if-both, ◌&&◌, ◌||◌, ◌==◌, not}
use reliable_data_transfer.Packet.{Packet, extract_pure_data, verify_checksum, pck_header_size}
use reliable_data_transfer.DataManagers.{feed_next_data}
use reliable_data_transfer.DataManagers.Naming.{file_name, Always, feed_next_data-name}
use reliable_data_transfer.Socket.{Recv, receive_packet}
use reliable_data_transfer.Reception.{receive_while_keeps}
use reliable_data_transfer.Run.{or_fault, bind-Ensures, or_fault-Ensures}
use reliable_data_transfer.StopWait.Client.{
  StopWaitClient, accept, handle, receive_one, recv_message,
}

-- The worker's file has the same name as that of the other.
abbrev SameFile : StopWaitClient → StopWaitClient → Type 0
SameFile c c' = file_name c'.sink ≡ file_name c.sink

accept-SameFile : (c : StopWaitClient) (packet : Packet) → Always (SameFile c) (accept c packet)
unfolding accept or_fault
accept-SameFile c packet =
    if-both (Always (SameFile c)) (not (packet.len == pck_header_size)) _ _
      (λ _.
        bind-Ensures {S = Unit} (λ u. Unit) (λ core. Unit) (SameFile c) (extract_pure_data packet) _
          (or_fault-Ensures {S = Unit} (λ u. Unit) (λ core. Unit) (extract_pure_data packet)
            (λ core e. tt))
          (λ core u.
            bind-Ensures {S = Unit} (λ u. Unit) (λ sink. file_name sink ≡ file_name c.sink)
              (SameFile c) (feed_next_data c.sink core packet.seqno) _
              (feed_next_data-name c.sink core packet.seqno) (λ sink e. e)))
      (λ _. refl)

handle-SameFile : (c : StopWaitClient) (packet : Packet) → Always (SameFile c) (handle c packet)
unfolding handle or_fault
handle-SameFile c packet =
    if-both (Always (SameFile c)) (c.error || c.time_out) _ _ (λ _. refl)
      (λ _.
        if-both (Always (SameFile c)) (verify_checksum packet && (packet.seqno == c.ack_no)) _ _
          (λ _. accept-SameFile (record c { sent_one = true }) packet)
          (λ _. if-both (Always (SameFile c)) c.sent_one _ _ (λ _. refl) (λ _. refl)))

receive_one-SameFile :
    (c c' : StopWaitClient) (r : Recv) → receive_one c r ≡ some c' → SameFile c c'
unfolding receive_one or_fault
receive_one-SameFile c c' r e = subst (Always (SameFile c)) e (
    bind-Ensures {S = Unit} (λ u. Unit) (λ reception. Unit) (SameFile c) (receive_packet r) _
      (or_fault-Ensures {S = Unit} (λ u. Unit) (λ reception. Unit) (receive_packet r)
        (λ reception e. tt))
      (λ reception u.
        handle-SameFile (record c { error = reception.error; time_out = reception.time_out })
          reception.packet))

pub recv_message-SameFile :
    (c c' : StopWaitClient) (rs : List Recv)
    → recv_message c rs ≡ some c'
    → file_name c'.sink ≡ file_name c.sink
unfolding recv_message
recv_message-SameFile =
    receive_while_keeps (λ c. not c.end) receive_one (λ c. file_name c.sink) receive_one-SameFile
