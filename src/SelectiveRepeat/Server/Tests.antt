-- ===== src/SelectiveRepeat/Server/Tests.antt =====
-- The server with the receiver of `loopback`.
use reliable_data_transfer.Base.{◌∷◌, arith, ◌≡◌, false, [], some, refl}
use reliable_data_transfer.DataManagers.{new_feeder, read_file}
use reliable_data_transfer.DataManagers.Feeding.{read_file-Feeds}
use reliable_data_transfer.Socket.Samples.{
  small, small-Fits, loopback, loopback-IsLossless, loopback_idle, acknowledgement,
}
use reliable_data_transfer.Run.{Ensures, done}
use reliable_data_transfer.SelectiveRepeat.Server.{SelectiveRepeatServer, send_message}
use reliable_data_transfer.SelectiveRepeat.Server.Order.{IsSound, IsFinished}
use reliable_data_transfer.SelectiveRepeat.Server.Finishing.{selective_repeat_server_sends}
use reliable_data_transfer.Socket.Genuine.{sent_packet}
use reliable_data_transfer.SelectiveRepeat.Server.Acknowledged.{with_one, with_none}
use reliable_data_transfer.SelectiveRepeat.Server.Completing.{selective_repeat_server_completes}

abbrev at_start : SelectiveRepeatServer loopback
at_start = record {
  base_seq_no = 0;
  seq_no = 0;
  send_order = [];
  seqnums_sent = [];
  data_sent = [];
  acks = [];
  error = false;
  time_out = false;
  data_feeder = (read_file (λ path. some small) new_feeder []).0;
  net = record { world = []; sent = [] };
}

selective_repeat_server_sends_example :
    Ensures
      (IsSound loopback small 4)
      (IsFinished loopback small)
      (send_message loopback 5 4 at_start)
selective_repeat_server_sends_example =
    selective_repeat_server_sends loopback small small-Fits 4 5 at_start
      (read_file-Feeds (λ path. some small) [] small refl).1 refl refl refl refl

selective_repeat_server_completes_example :
    (s' : SelectiveRepeatServer loopback) × (send_message loopback 3 4 at_start ≡ done s')
    × IsFinished loopback small s'
selective_repeat_server_completes_example =
    selective_repeat_server_completes loopback small small-Fits
      (loopback-IsLossless small small-Fits) refl 4 3 at_start
      (read_file-Feeds (λ path. some small) [] small refl).1 refl refl refl refl
      (loopback_idle small small-Fits) (omega arith) (omega arith) (omega arith)

-- The first packet is out and its acknowledgement has come.
abbrev answered : SelectiveRepeatServer loopback
answered =
    with_one loopback 0 (sent_packet small 0) 0
      (record at_start { seq_no = 1; net = record { world = acknowledgement 0 ∷ []; sent = [] } })

abbrev all_taken : SelectiveRepeatServer loopback
all_taken = with_none loopback 1 (record at_start { seq_no = 1 })
