-- ===== src/Workers/Completing.antt =====
-- A transfer between the two workers of one type over a network that loses nothing.
use reliable_data_transfer.Base.{
  ℕ, zero, suc, ◌+◌, ◌*◌, ◌^◌, ◌≤◌, ◌<◌, true, false, List, [], All, some, ◌≡◌, refl, arith, length,
  map, inl,
}
use reliable_data_transfer.DataManagers.{DataSink, DataFeeder}
use reliable_data_transfer.DataManagers.Feeding.{Feeds}
use reliable_data_transfer.DataManagers.Sinking.{Holds}
use reliable_data_transfer.Serial.{serialize_packet}
use reliable_data_transfer.Socket.{Recv, Host, Net}
use reliable_data_transfer.Socket.Genuine.{Arrives, IsDatagram, sent_packet}
use reliable_data_transfer.Socket.Lossless.{IsLossless, IsAllOnce, datagrams}
use reliable_data_transfer.Reception.{Serves}
use reliable_data_transfer.Run.{done}
use reliable_data_transfer.StopWait.Server.Completing.{stop_wait_server_sends_all}
use reliable_data_transfer.GoBackN.Server.Completing.{go_back_server_sends_all}
use reliable_data_transfer.SelectiveRepeat.Server.Completing.{selective_repeat_server_sends_all}
use reliable_data_transfer.SelectiveRepeatCc.Server.Lossless.{congestion_server_sends_all}
use reliable_data_transfer.Workers.{
  ProtoType, ServerWorker, stop_wait_server, selective_repeat_server, go_back_server,
  selective_repeat_cc_server, create_client_worker, create_server_worker, Received, recv_message,
  seen, new_stop_wait, new_go_back, new_selective_repeat, send_message,
}
use reliable_data_transfer.Workers.Ending.{WindowFits, client_worker_completes}

-- The datagram arrives, over what the buffer has held before.
abbrev pub arrival : (List ℕ → List ℕ) → List ℕ → Recv
arrival stack bytes = record { bytes = bytes; stack = stack bytes; would_block = false }

datagrams-Serves :
    (file : List ℕ) (stack : List ℕ → List ℕ) (k n : ℕ)
    → length file + 512 ≤ 512 * (k + n)
    → 512 * (k + n) < length file + 1024
    → Serves file k (map (arrival stack) (datagrams file k n))
      × All (Arrives file) (map (arrival stack) (datagrams file k n))
unfolding datagrams
datagrams-Serves file stack k zero whole no_more = (omega arith, tt)
datagrams-Serves file stack k (suc n) whole no_more =
    let (serves, arrive) = datagrams-Serves file stack (k + 1) n (omega arith) (omega arith) in
    let here : IsDatagram file k (arrival stack (serialize_packet (sent_packet file k))) =
      (omega arith, refl) in
    (inl (here, serves), (inl (k, here), arrive))

-- The selective-repeat server reads the key of a map entry that it has erased: the memory still has
-- it. The other workers do not.
abbrev pub FreedFits : ServerWorker → Host → Type 0
FreedFits stop_wait_server h = Unit
FreedFits go_back_server h = Unit
FreedFits selective_repeat_server h = Host.keeps_freed h ≡ true
FreedFits selective_repeat_cc_server h = Unit

module _ (h : Host) (file : List ℕ) (l : IsLossless h file) where
  -- Each server worker, and what it has handed to `sendto` when it ends.
  server_worker_sends_all :
      (worker : ServerWorker) (rounds window : ℕ) (dup_acks : List ℕ) (feeder : DataFeeder)
      (net : Net h)
      → FreedFits worker h
      → 0 < window
      → length file + 512 * window + 1024 < 512 * 2 ^ 32
      → length file + 1536 ≤ 512 * 2 ^ 31
      → length file + 1024 ≤ 512 * rounds
      → Feeds file 0 feeder
      → net.sent ≡ []
      → l.Idle net.world
      → (net' : Net h) × (send_message h worker rounds window dup_acks feeder net ≡ done net')
        × IsAllOnce file net'.sent
  unfolding send_message seen new_stop_wait new_go_back new_selective_repeat
  server_worker_sends_all stop_wait_server rounds window dup_acks feeder net freed open_at no_wrap
        small enough feeds none_sent idle =
      let (s', e, all) =
        stop_wait_server_sends_all h file (omega arith) l rounds (new_stop_wait h feeder net) feeds
          none_sent idle enough in
      (s'.net, rw e refl, all)
  server_worker_sends_all go_back_server rounds window dup_acks feeder net freed open_at no_wrap
        small enough feeds none_sent idle =
      let (s', e, all) =
        go_back_server_sends_all h file (omega arith) l window rounds (new_go_back h feeder net)
          feeds refl none_sent idle open_at no_wrap enough in
      (s'.net, rw e refl, all)
  server_worker_sends_all selective_repeat_server rounds window dup_acks feeder net freed open_at
        no_wrap small enough feeds none_sent idle =
      let (s', e, all) =
        selective_repeat_server_sends_all h file (omega arith) l freed window rounds
          (new_selective_repeat h feeder net) feeds refl refl refl none_sent idle open_at no_wrap
          enough in
      (s'.net, rw e refl, all)
  server_worker_sends_all selective_repeat_cc_server rounds window dup_acks feeder net freed open_at
        no_wrap small enough feeds none_sent idle =
      let (s', e, steps, all) =
        congestion_server_sends_all h file (omega arith) l window dup_acks (omega arith) rounds
          (new_selective_repeat h feeder net) feeds refl refl refl none_sent idle small enough in
      (s'.core.net, rw e refl, all)

  -- Over a network that loses nothing, whose receiver acknowledges each packet at once, with a
  -- clock that stands still: for each of the four types the server worker ends without a fault
  -- after one round for each packet of the file and one more, and the client worker of that type,
  -- to which the datagrams that the server has handed to sendto come one after the other, ends with
  -- the whole file. Of the server without congestion control of the selective-repeat type this is
  -- said only for memory in which the key of an erased map entry can still be read, which the
  -- language does not promise. The server's window is not empty and its end does not wrap, nor
  -- those of a selective-repeat client, and the file has at most 512 * 2^31 - 1536 bytes.
  pub transfer_completes :
      (type : ProtoType) (rounds window client_window : ℕ) (dup_acks : List ℕ) (feeder : DataFeeder)
      (net : Net h) (sink : DataSink) (stack : List ℕ → List ℕ)
      → FreedFits (create_server_worker type) h
      → 0 < window
      → length file + 512 * window + 1024 < 512 * 2 ^ 32
      → WindowFits (create_client_worker type) client_window file
      → length file + 1536 ≤ 512 * 2 ^ 31
      → length file + 1024 ≤ 512 * rounds
      → Feeds file 0 feeder
      → net.sent ≡ []
      → l.Idle net.world
      → Holds [] sink
      → (net' : Net h) × (send_message h
            (create_server_worker type)
            rounds
            window
            dup_acks
            feeder
            net
          ≡ done net')
        × (c : Received) × (recv_message
              (create_client_worker type)
              client_window
              sink
              (map (arrival stack) net'.sent)
            ≡ some c)
        × (c.over ≡ true)
        × Holds file c.sink
  transfer_completes type rounds window client_window dup_acks feeder net sink stack freed open_at
        no_wrap client_open small enough feeds none_sent idle empty =
      let (net', e, all) =
        server_worker_sends_all (create_server_worker type) rounds window dup_acks feeder net freed
          open_at no_wrap small enough feeds none_sent idle in
      let (serves, arrive) =
        datagrams-Serves file stack 0 all.count (omega (arith, all.whole))
          (omega (arith, all.no_more)) in
      let (c, received, over, holds) =
        client_worker_completes file (omega arith) (create_client_worker type) client_window sink
          (map (arrival stack) (datagrams file 0 all.count)) client_open empty arrive serves in
      (net', e, c, rw all.in_order received, over, holds)
