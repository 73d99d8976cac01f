-- ===== src/GoBackN/Server/Tests.antt =====
-- The server with the receiver of `loopback`.
use reliable_data_transfer.Base.{ℕ, true, false, [], some, none, ◌≡◌, refl, arith, eq→==, ◌⊎◌, ◌∷◌}
use reliable_data_transfer.Packet.{create_ack_packet, verify_checksum_ack, calculate_checksum_ack}
use reliable_data_transfer.DataManagers.{new_feeder, read_file}
use reliable_data_transfer.DataManagers.Feeding.{read_file-Feeds}
use reliable_data_transfer.Socket.Samples.{
  small, small-Fits, loopback, loopback-IsLossless, loopback_idle, acknowledgement,
}
use reliable_data_transfer.Run.{Ensures, done}
use reliable_data_transfer.GoBackN.Server.{
  GoBackServer, slide, is_empty, restart_timer, acknowledge, receive_ack, update_timer,
  send_message,
}
use reliable_data_transfer.GoBackN.Server.Window.{IsSound, IsFinished, packets}
use reliable_data_transfer.Packet.{AckPacket}
use reliable_data_transfer.Socket.{
  Reception, receive_ack_from, update_remaining_timeout_nc, time_now, may_receive, is_over,
}
use reliable_data_transfer.Socket.Lossless.{
  receive_ack_packet_genuine, create_ack_packet_verifies, create_ack_packet_ackno,
}
use reliable_data_transfer.GoBackN.Server.Heeding.{IsKept, IsHeard, IsSlid, receive_ack_heeds}
use reliable_data_transfer.GoBackN.Server.Acknowledging.{
  IsRead, acknowledge_within, acknowledge_beyond,
}
use reliable_data_transfer.GoBackN.Server.Finishing.{go_back_server_sends}
use reliable_data_transfer.GoBackN.Server.Completing.{go_back_server_completes}

abbrev at_start : GoBackServer loopback
at_start = record {
  base_seq_no = 0;
  seq_no = 0;
  error = false;
  time_out = false;
  send_time = 0;
  unacked_packet = [];
  data_feeder = (read_file (λ path. some small) new_feeder []).0;
  net = record { world = []; sent = [] };
}

go_back_server_sends_example :
    Ensures
      (IsSound loopback small 4)
      (IsFinished loopback small)
      (send_message loopback 5 4 at_start)
go_back_server_sends_example =
    go_back_server_sends loopback small small-Fits 4 5 at_start
      (read_file-Feeds (λ path. some small) [] small refl).1 refl refl

go_back_server_completes_example :
    (s' : GoBackServer loopback) × (send_message loopback 3 4 at_start ≡ done s')
    × IsFinished loopback small s'
go_back_server_completes_example =
    go_back_server_completes loopback small small-Fits (loopback-IsLossless small small-Fits) 4 3
      at_start (read_file-Feeds (λ path. some small) [] small refl).1 refl refl
      (loopback_idle small small-Fits) (omega arith) (omega arith) (omega arith)

-- Both packets are out.
abbrev two_out : GoBackServer loopback
two_out = record at_start { seq_no = 2; unacked_packet = packets small 0 2 }

two_out-IsSound : IsSound loopback small 4 two_out
two_out-IsSound = record {
  count = 2;
  unacked = refl;
  numbers = refl;
  in_window = omega arith;
  wire = tt;
}

-- The acknowledgements that the receivers make verify.
create_ack_packet-IsRead : (ackno : ℕ) → IsRead two_out (create_ack_packet ackno)
unfolding create_ack_packet verify_checksum_ack calculate_checksum_ack
create_ack_packet-IsRead ackno = record { in_time = refl; fine = refl; verified = eq→== _ _ refl }

acknowledge_within_example :
    (s' : GoBackServer loopback) × (acknowledge loopback 4 two_out (create_ack_packet 0)
      ≡ some (true, s'))
    × (s'.base_seq_no ≡ 1)
    × (s'.unacked_packet ≡ packets small 1 1)
    × (s'.seq_no ≡ 2)
unfolding create_ack_packet
acknowledge_within_example =
    acknowledge_within loopback small 4 two_out (create_ack_packet 0) two_out-IsSound
      (create_ack_packet-IsRead 0) (omega arith) (omega arith) (omega arith)

acknowledge_beyond_example : acknowledge loopback 4 two_out (create_ack_packet 3) ≡ none
unfolding create_ack_packet
acknowledge_beyond_example =
    acknowledge_beyond loopback small 4 two_out (create_ack_packet 3) two_out-IsSound
      (create_ack_packet-IsRead 3) (omega arith) (omega arith) (omega arith)

-- The first of two acknowledgements has come.
abbrev answered : GoBackServer loopback
answered = record two_out { net = record { world = acknowledgement 0 ∷ []; sent = [] } }

abbrev one_left : GoBackServer loopback
one_left = record two_out { base_seq_no = 1; unacked_packet = packets small 1 1 }

answered_one : receive_ack loopback 4 answered ≡ some (true, one_left)
unfolding receive_ack receive_ack_from update_remaining_timeout_nc time_now may_receive acknowledge
    is_over packets slide is_empty restart_timer
answered_one =
    rw
      (
        receive_ack_packet_genuine 0 (acknowledgement 0) (omega arith) refl,
        create_ack_packet_verifies 0,
        create_ack_packet_ackno 0,
      )
      refl

receive_ack_heeds_example :
    IsKept loopback 4 answered (update_timer loopback answered).1
    × (IsKept loopback 4 answered one_left
        ⊎ ((c : Reception AckPacket) × IsHeard loopback 4 answered c
            × IsSlid loopback 4 answered c.packet.ackno one_left))
receive_ack_heeds_example = receive_ack_heeds loopback 4 answered true one_left answered_one
