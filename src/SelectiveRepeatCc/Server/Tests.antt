-- ===== src/SelectiveRepeatCc/Server/Tests.antt =====
-- The server with the receiver of `loopback`, a threshold of four at the start, and a loss after the
-- second acknowledgement.
use reliable_data_transfer.Base.{ℕ, List, arith, ◌≡◌, false, [], ◌∷◌, some, refl}
use reliable_data_transfer.DataManagers.{new_feeder, read_file}
use reliable_data_transfer.DataManagers.Feeding.{read_file-Feeds}
use reliable_data_transfer.Socket.Samples.{
  small, small-Fits, loopback, loopback-IsLossless, loopback_idle, acknowledgement,
}
use reliable_data_transfer.Run.{Ensures, done}
use reliable_data_transfer.SelectiveRepeat.Server.{SelectiveRepeatServer}
use reliable_data_transfer.SelectiveRepeatCc.Congestion.Reach.{IsAcked}
use reliable_data_transfer.SelectiveRepeatCc.Server.{SelectiveRepeatCcServer, send_message}
use reliable_data_transfer.SelectiveRepeatCc.Server.Order.{IsCcSound, IsCcFinished}
use reliable_data_transfer.SelectiveRepeatCc.Server.Finishing.{congestion_server_sends}
use reliable_data_transfer.Socket.Genuine.{sent_packet}
use reliable_data_transfer.SelectiveRepeat.Server.Acknowledged.{with_one, with_none}
use reliable_data_transfer.SelectiveRepeatCc.Congestion.{new_congestion, acknowledge_one}
use reliable_data_transfer.SelectiveRepeatCc.Server.Completing.{congestion_server_completes}

abbrev new_worker : SelectiveRepeatServer loopback
new_worker = record {
  base_seq_no = 0;
  seq_no = 0;
  send_order = [];
  seqnums_sent = [];
  data_sent = [];
  acks = [];
  error = false;
  time_out = false;
  data_feeder = (read_file (λ path. some small) new_feeder []).0;
  net = record { world = []; sent = [] };
}

abbrev losses : List ℕ
losses = 2 ∷ []

congestion_server_sends_example :
    Ensures
      (IsCcSound loopback small)
      (IsCcFinished loopback small)
      (send_message loopback 5 4 losses new_worker)
congestion_server_sends_example =
    congestion_server_sends loopback small (omega arith) 5 4 losses new_worker (omega arith)
      (read_file-Feeds (λ path. some small) [] small refl).1 refl refl refl refl

congestion_server_completes_example :
    (s' : SelectiveRepeatCcServer loopback) × (send_message loopback 3 4 losses new_worker
      ≡ done s')
    × IsCcFinished loopback small s'
    × IsAcked 4 losses s'.core.seq_no s'.cong
congestion_server_completes_example =
    congestion_server_completes loopback small small-Fits (loopback-IsLossless small small-Fits) 4
      losses (omega arith) 3 new_worker (read_file-Feeds (λ path. some small) [] small refl).1 refl
      refl refl refl (loopback_idle small small-Fits) (omega arith) (omega arith)

-- The first packet is out and its acknowledgement has come.
abbrev answered : SelectiveRepeatCcServer loopback
answered = record {
  core = with_one loopback 0 (sent_packet small 0) 0 (record new_worker {
    seq_no = 1;
    net = record { world = acknowledgement 0 ∷ []; sent = [] };
  });
  cong = new_congestion 4 losses;
}

abbrev all_taken : SelectiveRepeatCcServer loopback
all_taken = record {
  core = with_none loopback 1 (record new_worker { seq_no = 1 });
  cong = acknowledge_one (new_congestion 4 losses);
}
