-- ===== src/SelectiveRepeatCc/Server/Completing.antt =====
-- selectiveRepeatCCServer.cpp over a network that loses nothing: the worker ends.
use reliable_data_transfer.Base.{ℕ, ◌+◌, ◌*◌, ◌≤◌, ◌^◌, List, [], ◌≡◌, subst, arith, length}
use reliable_data_transfer.DataManagers.Feeding.{Feeds}
use reliable_data_transfer.Socket.{Host}
use reliable_data_transfer.Socket.Genuine.{Fits}
use reliable_data_transfer.Socket.Lossless.{IsLossless}
use reliable_data_transfer.Run.{done, Ensures}
use reliable_data_transfer.SelectiveRepeat.Server.{SelectiveRepeatServer}
use reliable_data_transfer.SelectiveRepeatCc.Congestion.Reach.{IsAcked}
use reliable_data_transfer.SelectiveRepeatCc.Server.{SelectiveRepeatCcServer, send_message}
use reliable_data_transfer.SelectiveRepeatCc.Server.Order.{IsCcFinished}
use reliable_data_transfer.SelectiveRepeatCc.Server.Finishing.{congestion_server_sends}
use reliable_data_transfer.SelectiveRepeatCc.Server.Lossless.{congestion_server_sends_all}

module _ (h : Host) (file : List ℕ) (fits : Fits file) (l : IsLossless h file) (org_window : ℕ)
    (dup_acks : List ℕ) (some_window : 1 ≤ org_window) where
  -- Over a network that loses nothing and whose receiver acknowledges each packet at once, with a
  -- clock that stands still, a threshold that is not zero at the start and a file of at most 512 *
  -- 2^31 - 1536 bytes, the congestion-controlled server ends without a fault after one round for
  -- each packet of the file and one more, the base has come to the next number, behind every
  -- packet, and the congestion window is what as many acknowledgements as there are packets, and no
  -- timeout, make of the one at the start.
  pub congestion_server_completes :
      (rounds : ℕ) (worker : SelectiveRepeatServer h)
      → Feeds file 0 worker.data_feeder
      → worker.seqnums_sent ≡ []
      → worker.data_sent ≡ []
      → worker.acks ≡ []
      → worker.net.sent ≡ []
      → l.Idle worker.net.world
      → length file + 1536 ≤ 512 * 2 ^ 31
      → length file + 1024 ≤ 512 * rounds
      → (s' : SelectiveRepeatCcServer h) × (send_message h rounds org_window dup_acks worker
          ≡ done s')
        × IsCcFinished h file s'
        × IsAcked org_window dup_acks s'.core.seq_no s'.cong
  congestion_server_completes rounds worker feeds no_times no_data no_acks none_sent idle small
        enough =
      let (s', e, steps, _) =
        congestion_server_sends_all h file fits l org_window dup_acks some_window rounds worker
          feeds no_times no_data no_acks none_sent idle small enough in
      (
        s',
        e,
        subst (Ensures _ (IsCcFinished h file)) e (
            congestion_server_sends h file (omega arith) rounds org_window dup_acks worker
              some_window feeds no_times no_data no_acks none_sent),
        steps,
      )
