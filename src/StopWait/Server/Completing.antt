-- ===== src/StopWait/Server/Completing.antt =====
-- StopWaitServer.cpp over a network that loses nothing.
use reliable_data_transfer.Base.{
  ℕ, zero, suc, ◌+◌, ◌*◌, ◌≤◌, ◌<◌, ◌^◌, true, false, List, [], some, ◌≡◌, refl, sym, subst, ◌∙◌,
  inl, inr, arith, length, eq→==, Bool-cases, u32, ◌==◌,
}
use reliable_data_transfer.Packet.{Packet, create_core_packet, create_ack_packet}
use reliable_data_transfer.DataManagers.{has_next, get_next_data_segment}
use reliable_data_transfer.DataManagers.Feeding.{Feeds}
use reliable_data_transfer.DataManagers.Reading.{Reads, Reads-next, Reads-over, Feeds-Reads}
use reliable_data_transfer.Socket.{Host, Net, timeout, time_now, transmit, update_remaining_timeout}
use reliable_data_transfer.Socket.Genuine.{Fits, sent_packet, create-sent_packet}
use reliable_data_transfer.Socket.Lossless.{
  IsLossless, IsIdle, IsPending, no_datagrams, IsAllOnce, create_ack_packet_verifies,
  create_ack_packet_ackno, transmit_lossless, receive_ack_from_lossless,
  update_remaining_timeout_lossless,
}
use reliable_data_transfer.Run.{done, ◌then◌, or_fault, repeat, Ensures}
use reliable_data_transfer.StopWait.Server.{
  acked, StopWaitServer, now, judge, await_ack, transmit_packet, finish_packet, send_next,
  send_message,
}
use reliable_data_transfer.StopWait.Server.Sequence.{IsFinished}
use reliable_data_transfer.StopWait.Server.Sending.{stop_wait_server_sends}

module _ (h : Host) (file : List ℕ) (fits : Fits file) (l : IsLossless h file) where
  -- Between two packets, over an idle network.
  record IsReady (i : ℕ) (s : StopWaitServer h) : Type 0 where
    number : s.seq_no ≡ i
    reads : Reads file i s.data_feeder
    idle : IsIdle h file l i s.net

  -- The first acknowledgement is the one awaited.
  await_ack_lossless :
      (n i : ℕ) (s : StopWaitServer h)
      → s.seq_no ≡ i
      → i + 1 < 2 ^ 32
      → IsPending h file l i s.net
      → (s' : StopWaitServer h) × (await_ack h (suc n) timeout l.now s ≡ done (acked, s'))
        × (s'.seq_no ≡ i + 1)
        × (s'.data_feeder ≡ s.data_feeder)
        × IsIdle h file l (i + 1) s'.net
  unfolding await_ack judge or_fault ◌then◌
  await_ack_lossless n i s number small pending =
      let t = update_remaining_timeout h timeout l.now s.net in
      let (in_time, pending') = update_remaining_timeout_lossless h file l i s.net pending in
      let (net', received, idle) =
        receive_ack_from_lossless h file l i t.tv t.net pending' (omega arith) in
      let awaited : ((create_ack_packet i).ackno == s.seq_no) ≡ true =
        eq→== _ _ (create_ack_packet_ackno i ∙ sym number) in
      (
        record s { seq_no = u32 (s.seq_no + 1); error = false; time_out = false; net = net' },
        rw (in_time, await_ack, received, create_ack_packet_verifies i, awaited) refl,
        omega arith,
        refl,
        idle,
      )

  finish_packet_lossless :
      (n i : ℕ) (packet : Packet) (s : StopWaitServer h)
      → s.seq_no ≡ i
      → i + 1 < 2 ^ 32
      → IsPending h file l i s.net
      → (s' : StopWaitServer h) × (finish_packet h (suc n) packet s ≡ done s')
        × (s'.seq_no ≡ i + 1)
        × (s'.data_feeder ≡ s.data_feeder)
        × IsIdle h file l (i + 1) s'.net
  unfolding finish_packet now time_now ◌then◌
  finish_packet_lossless n i packet s number small pending =
      let (s', e, number', same, idle) =
        await_ack_lossless n i (now h s).1 number small
          (l.clock_pending i s.net.world pending.0, pending.1) in
      (s', rw (l.clock s.net.world, e) refl, number', same, idle)

  send_next_lossless :
      (n i : ℕ) (s : StopWaitServer h)
      → IsReady i s
      → has_next s.data_feeder ≡ true
      → (s' : StopWaitServer h) × (send_next h (suc n) s ≡ done s') × IsReady (i + 1) s'
  unfolding send_next transmit_packet now time_now ◌then◌ or_fault
  send_next_lossless n i s r more =
      let (sent, e, reads) = Reads-next file i s.data_feeder r.reads more in
      let feeder = (get_next_data_segment s.data_feeder).0 in
      let built : create_core_packet (get_next_data_segment s.data_feeder).1 s.seq_no
          ≡ some (sent_packet file i) =
        rw (e, r.number) (create-sent_packet file i) in
      let net : Net h = record s.net { world = (Host.gettimeofday h s.net.world).1 } in
      let (kept, pending) =
        transmit_lossless h file l i net (l.clock_idle s.net.world r.idle.0, r.idle.1) sent in
      let s1 : StopWaitServer h = record s {
        data_feeder = feeder;
        net = (transmit h net (sent_packet file i)).1;
      } in
      let (s', finished, number, same, idle) =
        finish_packet_lossless n i (sent_packet file i) s1 r.number (omega arith) pending in
      (
        s',
        rw (built, kept) finished,
        record {
          number = number;
          reads = subst (Reads file (i + 1)) (sym same) reads;
          idle = idle;
        },
      )

  -- A round for each packet that is left, and one more.
  repeat_lossless :
      (n rounds i : ℕ) (s : StopWaitServer h)
      → IsReady i s
      → length file + 1024 ≤ 512 * (n + i)
      → (s' : StopWaitServer h) × (repeat n
            (λ s. (has_next s.data_feeder, s))
            (send_next h (suc rounds))
            s
          ≡ done s')
        × IsAllOnce file s'.net.sent
  unfolding repeat ◌then◌
  repeat_lossless zero rounds i s r enough = absurd (omega (arith, r.reads.most))
  repeat_lossless (suc n) rounds i s r enough = elim (Bool-cases (has_next s.data_feeder)) [
    | inr stop ↦ (
      s,
      rw (stop, repeat) refl,
      record {
        count = i;
        in_order = r.idle.1;
        whole = Reads-over file i s.data_feeder r.reads stop;
        no_more = r.reads.most;
      },
    )
    | inl more ↦
        let (s1, sent, r1) = send_next_lossless rounds i s r more in
        let (s2, e, all) = repeat_lossless n rounds (i + 1) s1 r1 (omega arith) in
        (s2, rw (more, repeat, sent) e, all)
  ]

  -- Over such a network every packet goes out once, in its order, before the server ends.
  pub stop_wait_server_sends_all :
      (rounds : ℕ) (s : StopWaitServer h)
      → Feeds file 0 s.data_feeder
      → s.net.sent ≡ []
      → l.Idle s.net.world
      → length file + 1024 ≤ 512 * rounds
      → (s' : StopWaitServer h) × (send_message h rounds s ≡ done s') × IsAllOnce file s'.net.sent
  unfolding send_message
  stop_wait_server_sends_all zero s feeds none_sent idle enough = absurd (omega arith)
  stop_wait_server_sends_all (suc n) s feeds none_sent idle enough =
      repeat_lossless (suc n) n 0 (record s { seq_no = 0 })
        (record {
          number = refl;
          reads = Feeds-Reads file s.data_feeder feeds;
          idle = no_datagrams h file l s.net idle none_sent;
        })
        (omega arith)

  -- Over a network that loses nothing and whose receiver acknowledges each packet at once, with a
  -- clock that stands still, the stop-and-wait server ends without a fault after one round for each
  -- packet of the file and one more, every packet having had its turn. The file has less than 512 *
  -- (2^32 - 2) bytes.
  pub stop_wait_server_completes :
      (rounds : ℕ) (s : StopWaitServer h)
      → Feeds file 0 s.data_feeder
      → s.net.sent ≡ []
      → l.Idle s.net.world
      → length file + 1024 ≤ 512 * rounds
      → (s' : StopWaitServer h) × (send_message h rounds s ≡ done s') × IsFinished h file s'
  stop_wait_server_completes rounds s feeds none_sent idle enough =
      let (s', e, _) = stop_wait_server_sends_all rounds s feeds none_sent idle enough in
      (
        s',
        e,
        subst (Ensures _ (IsFinished h file)) e
            (stop_wait_server_sends h file fits rounds s feeds none_sent),
      )
