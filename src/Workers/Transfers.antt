-- ===== src/Workers/Transfers.antt =====
-- A transfer between the two workers that the factory makes for one type.
use reliable_data_transfer.Base.{
  ℕ, ◌+◌, ◌*◌, ◌≤◌, ◌^◌, true, not, List, [], All, some, ◌≡◌, refl, arith, length, take,
}
use reliable_data_transfer.DataManagers.{DataSink, DataFeeder}
use reliable_data_transfer.DataManagers.Feeding.{Feeds}
use reliable_data_transfer.DataManagers.Sinking.{Holds}
use reliable_data_transfer.Socket.{Recv, Host, Net}
use reliable_data_transfer.Socket.Genuine.{Fits, Arrives}
use reliable_data_transfer.Socket.Wire.{IsOfTransfer}
use reliable_data_transfer.Run.{Run, fault, unfinished, returned, done, Ensures}
use reliable_data_transfer.Transfer.{IsCarried}
use reliable_data_transfer.Transfer.Whole.{InSequence-IsOfTransfer, IsCarried-Arrives}
use reliable_data_transfer.StopWait.Client.Delivery.{stop_wait_delivers}
use reliable_data_transfer.StopWait.Server.Sending.{stop_wait_server_sends}
use reliable_data_transfer.GoBackN.Client.Delivery.{go_back_delivers}
use reliable_data_transfer.GoBackN.Server.Finishing.{go_back_server_sends}
use reliable_data_transfer.SelectiveRepeat.Client.{running}
use reliable_data_transfer.SelectiveRepeat.Client.Delivery.{selective_repeat_delivers}
use reliable_data_transfer.SelectiveRepeat.Server.Finishing.{selective_repeat_server_sends}
use reliable_data_transfer.SelectiveRepeatCc.Client.Agreement.{congestion_client_agrees}
use reliable_data_transfer.SelectiveRepeatCc.Server.Finishing.{congestion_server_sends}
use reliable_data_transfer.DataManagers.Naming.{file_name}
use reliable_data_transfer.Workers.Naming.{recv_message-name}
use reliable_data_transfer.Workers.{
  ProtoType, ClientWorker, ServerWorker, stop_wait_client, selective_repeat_client, go_back_client,
  selective_repeat_cc_client, stop_wait_server, selective_repeat_server, go_back_server,
  selective_repeat_cc_server, create_client_worker, create_server_worker, Received, recv_message,
  seen, new_stop_wait, new_go_back, new_selective_repeat, send_message,
}

-- What holds of the states holds of what is seen of them.
seen-Ensures :
    {S T : Type 0} (f : S → T) (P Q : S → Type 0) (R : T → Type 0) (r : Run S S)
    → ((s : S) → P s → R (f s))
    → ((s : S) → Q s → R (f s))
    → Ensures P Q r
    → Ensures R R (seen f r)
unfolding seen
seen-Ensures f P Q R fault p q e = tt
seen-Ensures f P Q R (unfinished s) p q e = p s e
seen-Ensures f P Q R (returned s) p q e = p s e
seen-Ensures f P Q R (done s) p q e = q s e

Ensures-both :
    {T : Type 0} (P Q : T → Type 0) (r : Run T T)
    → ((t : T) → P t → Q t)
    → Ensures P P r
    → Ensures Q Q r
Ensures-both P Q fault weak e = tt
Ensures-both P Q (unfinished t) weak e = weak t e
Ensures-both P Q (returned t) weak e = weak t e
Ensures-both P Q (done t) weak e = weak t e

-- The file that the client writes is a prefix of the file sent, and the whole of it once the
-- client's loop has ended.
record IsWritten (file : List ℕ) (c : Received) : Type 0 where
  cut : ℕ
  prefix : Holds (take cut file) c.sink
  whole : c.over ≡ true → Holds file c.sink

-- Each client worker.
client_worker_writes :
    (file : List ℕ)
    → Fits file
    → (worker : ClientWorker) (window : ℕ) (sink : DataSink) (rs : List Recv) → Holds [] sink
    → All (Arrives file) rs
    → (c : Received) × (recv_message worker window sink rs ≡ some c) × IsWritten file c
unfolding recv_message
client_worker_writes file fits stop_wait_client window sink rs empty arrive =
    let (c, e, prefix, whole) = stop_wait_delivers file fits sink rs empty arrive in
    (
      record { sink = c.sink; over = c.end; sent = c.sent },
      rw e refl,
      record { cut = 512 * c.ack_no; prefix = prefix; whole = whole },
    )
client_worker_writes file fits go_back_client window sink rs empty arrive =
    let (c, e, prefix, whole) = go_back_delivers file fits sink rs empty arrive in
    (
      record { sink = c.sink; over = c.end; sent = c.sent },
      rw e refl,
      record { cut = 512 * c.base_ack_no; prefix = prefix; whole = whole },
    )
client_worker_writes file fits selective_repeat_client window sink rs empty arrive =
    let (c, e, prefix, whole) = selective_repeat_delivers file fits window sink rs empty arrive in
    (
      record { sink = c.sink; over = not (running c); sent = c.sent },
      rw e refl,
      record { cut = 512 * c.base_ack_no; prefix = prefix; whole = λ over. whole (ground arith) },
    )
client_worker_writes file fits selective_repeat_cc_client window sink rs empty arrive =
    let (c, e, prefix, whole) = selective_repeat_delivers file fits window sink rs empty arrive in
    (
      record { sink = c.sink; over = not (running c); sent = c.sent },
      rw (congestion_client_agrees window sink rs, e) refl,
      record { cut = 512 * c.base_ack_no; prefix = prefix; whole = λ over. whole (ground arith) },
    )

-- And the file has the name under which the sink has been opened.
pub record IsDelivered (file : List ℕ) (sink : DataSink) (c : Received) : Type 0 where
  pub cut : ℕ
  pub prefix : Holds (take cut file) c.sink
  pub whole : c.over ≡ true → Holds file c.sink
  pub named : file_name c.sink ≡ file_name sink

client_worker_delivers :
    (file : List ℕ)
    → Fits file
    → (worker : ClientWorker) (window : ℕ) (sink : DataSink) (rs : List Recv) → Holds [] sink
    → All (Arrives file) rs
    → (c : Received) × (recv_message worker window sink rs ≡ some c) × IsDelivered file sink c
client_worker_delivers file fits worker window sink rs empty arrive =
    let (c, e, w) = client_worker_writes file fits worker window sink rs empty arrive in
    (
      c,
      e,
      record {
        cut = w.cut;
        prefix = w.prefix;
        whole = w.whole;
        named = recv_message-name worker window sink rs c e;
      },
    )

module _ (h : Host) (file : List ℕ) where
  abbrev OnWire : Net h → Type 0
  OnWire net = All (IsOfTransfer file) net.sent

  -- What the client of the type makes of the datagrams that have gone out, whatever the network
  -- loses, repeats, delays or damages.
  abbrev pub Delivers : ProtoType → ℕ → DataSink → Net h → Type 0
  Delivers type window sink net =
      (rs : List Recv)
      → All (IsCarried net.sent) rs
      → (c : Received) × (recv_message (create_client_worker type) window sink rs ≡ some c)
        × IsDelivered file sink c

module _ (h : Host) (file : List ℕ) (roomy : length file + 2048 ≤ 512 * 2 ^ 32) where
  -- Each server worker hands nothing to `sendto` but packets of the transfer.
  server_worker_sends :
      (worker : ServerWorker) (rounds window : ℕ) (dup_acks : List ℕ) (feeder : DataFeeder)
      (net : Net h)
      → 1 ≤ window
      → Feeds file 0 feeder
      → net.sent ≡ []
      → Ensures
          (OnWire h file)
          (OnWire h file)
          (send_message h worker rounds window dup_acks feeder net)
  unfolding send_message new_stop_wait new_go_back new_selective_repeat
  server_worker_sends stop_wait_server rounds window dup_acks feeder net open_at feeds none_sent =
      seen-Ensures (λ s. s.net) _ _ (OnWire h file) _
        (λ s p. InSequence-IsOfTransfer file s.seq_no s.net.sent p.sequence)
        (λ s p. InSequence-IsOfTransfer file s.seq_no s.net.sent p.sequence)
        (stop_wait_server_sends h file (omega arith) rounds _ feeds none_sent)
  server_worker_sends go_back_server rounds window dup_acks feeder net open_at feeds none_sent =
      seen-Ensures (λ s. s.net) _ _ (OnWire h file) _ (λ s p. p.wire) (λ s p. p.wire)
        (go_back_server_sends h file (omega arith) window rounds _ feeds refl none_sent)
  server_worker_sends selective_repeat_server rounds window dup_acks feeder net open_at feeds
        none_sent =
      seen-Ensures (λ s. s.net) _ _ (OnWire h file) _ (λ s p. p.wire) (λ s p. p.wire)
        (selective_repeat_server_sends h file (omega arith) window rounds _ feeds refl refl refl
          none_sent)
  server_worker_sends selective_repeat_cc_server rounds window dup_acks feeder net open_at feeds
        none_sent =
      seen-Ensures (λ s. s.core.net) _ _ (OnWire h file) _ (λ s p. p.wire) (λ s p. p.sound.wire)
        (congestion_server_sends h file roomy rounds window dup_acks _ open_at feeds refl refl refl
          none_sent)

  -- For each of the four types, whatever the clock, the random draws, the file control.cc, the
  -- client's window and the number of rounds that the server's loops are followed for, and whatever
  -- the network does short of leading the server into undefined behaviour: let each reception of
  -- the client bring one of the datagrams that the server of the type has handed to sendto by then,
  -- in any order and number, or nothing, or a failure, or damage that the checksum shows. Then the
  -- client of the type has no fault, its output file is a prefix of the file sent, and the whole of
  -- it once its loop has ended. The server's window is not zero and the file has at most 512 * 2^32
  -- - 2048 bytes. A second copy of the last acknowledgement, for one, leads the two selective-
  -- repeat servers into undefined behaviour, and nothing is said of that run.
  pub transfer_of_each_type :
      (type : ProtoType) (rounds window client_window : ℕ) (dup_acks : List ℕ) (feeder : DataFeeder)
      (net : Net h) (sink : DataSink)
      → 1 ≤ window
      → Feeds file 0 feeder
      → net.sent ≡ []
      → Holds [] sink
      → Ensures
          (Delivers h file type client_window sink)
          (Delivers h file type client_window sink)
          (send_message h (create_server_worker type) rounds window dup_acks feeder net)
  transfer_of_each_type type rounds window client_window dup_acks feeder net sink open_at feeds
        none_sent empty =
      Ensures-both (OnWire h file) (Delivers h file type client_window sink) _
        (λ net wire rs carried.
          client_worker_delivers file (omega arith) (create_client_worker type) client_window sink
            rs empty (IsCarried-Arrives file net.sent rs wire carried))
        (server_worker_sends (create_server_worker type) rounds window dup_acks feeder net open_at
          feeds none_sent)
