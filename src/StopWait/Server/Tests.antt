-- ===== src/StopWait/Server/Tests.antt =====
-- The server with the receiver of `loopback`.
use reliable_data_transfer.Base.{arith, ◌≡◌, false, [], some, refl}
use reliable_data_transfer.DataManagers.{new_feeder, read_file}
use reliable_data_transfer.DataManagers.Feeding.{read_file-Feeds}
use reliable_data_transfer.Socket.Samples.{
  small, small-Fits, loopback, loopback-IsLossless, loopback_idle,
}
use reliable_data_transfer.Run.{Ensures, done}
use reliable_data_transfer.StopWait.Server.{StopWaitServer, send_message}
use reliable_data_transfer.StopWait.Server.Sequence.{IsSound, IsFinished}
use reliable_data_transfer.StopWait.Server.Sending.{stop_wait_server_sends}
use reliable_data_transfer.StopWait.Server.Completing.{stop_wait_server_completes}

abbrev at_start : StopWaitServer loopback
at_start = record {
  seq_no = 0;
  error = false;
  time_out = false;
  data_feeder = (read_file (λ path. some small) new_feeder []).0;
  net = record { world = []; sent = [] };
}

stop_wait_server_sends_example :
    Ensures (IsSound loopback small) (IsFinished loopback small) (send_message loopback 5 at_start)
stop_wait_server_sends_example =
    stop_wait_server_sends loopback small small-Fits 5 at_start
      (read_file-Feeds (λ path. some small) [] small refl).1 refl

stop_wait_server_completes_example :
    (s' : StopWaitServer loopback) × (send_message loopback 3 at_start ≡ done s')
    × IsFinished loopback small s'
stop_wait_server_completes_example =
    stop_wait_server_completes loopback small small-Fits (loopback-IsLossless small small-Fits) 3
      at_start (read_file-Feeds (λ path. some small) [] small refl).1 refl
      (loopback_idle small small-Fits) (omega arith)
