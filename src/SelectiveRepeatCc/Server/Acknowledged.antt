-- ===== src/SelectiveRepeatCc/Server/Acknowledged.antt =====
-- selectiveRepeatCCServer.cpp over a network that loses nothing: one packet and its acknowledgement.
use reliable_data_transfer.Base.{
  ℕ, suc, ◌+◌, ◌<◌, ◌^◌, true, false, List, some, ◌≡◌, refl, ◌∙◌, arith, u32, ◌&&◌, ltb, leb,
  if◌then◌else◌,
}
use reliable_data_transfer.Base.Maps.{lookup, insert}
use reliable_data_transfer.Packet.{Packet, create_ack_packet, verify_checksum_ack}
use reliable_data_transfer.Socket.{
  Host, Net, timeout, time_now, has_data, may_receive, update_remaining_timeout_nc,
}
use reliable_data_transfer.Socket.Genuine.{Fits}
use reliable_data_transfer.Socket.Lossless.{
  IsLossless, IsIdle, IsPending, create_ack_packet_verifies, create_ack_packet_ackno,
  receive_ack_from_lossless, update_remaining_timeout_nc_lossless,
}
use reliable_data_transfer.Run.{Run, done, ◌then◌, or_fault, repeat_round, repeat_stop}
use reliable_data_transfer.SelectiveRepeat.Server.{SelectiveRepeatServer, poll}
use reliable_data_transfer.SelectiveRepeat.Server.Acknowledged.{
  lookup_one, sent_time_one, take_off_one, with_one, with_none, received_one,
}
use reliable_data_transfer.SelectiveRepeatCc.Congestion.{Congestion, acknowledge_one}
use reliable_data_transfer.SelectiveRepeatCc.Server.{
  SelectiveRepeatCcServer, acknowledge, receive_ack_for, receive_ack, update_timers_from, poll_core,
  receive_all, timers_or_return, after_sending,
}

module _ (h : Host) (file : List ℕ) (fits : Fits file) (l : IsLossless h file) where
  -- The worker with one packet out.
  abbrev out : ℕ → Packet → SelectiveRepeatServer h → Congestion → SelectiveRepeatCcServer h
  out i packet core cong = record { core = with_one h i packet l.now core; cong = cong }

  -- And when its acknowledgement has come.
  abbrev pub received : ℕ → Net h → SelectiveRepeatServer h → Congestion → SelectiveRepeatCcServer h
  received base net core cong = record {
    core = received_one h base net core;
    cong = acknowledge_one cong;
  }

  receive_ack_lossless :
      (i : ℕ) (core : SelectiveRepeatServer h) (cong : Congestion) (packet : Packet)
      → IsPending h file l i core.net
      → i + 1 < 2 ^ 32
      → 0 < cong.window
      → i + cong.window < 2 ^ 32
      → (net' : Net h) × (receive_ack h (out i packet core cong)
          ≡ some (true, received (i + 1) net' core cong))
        × IsIdle h file l (i + 1) net'
  unfolding receive_ack receive_ack_for acknowledge may_receive update_remaining_timeout_nc time_now
  receive_ack_lossless i core cong packet pending small open_at no_wrap =
      let in_time = update_remaining_timeout_nc_lossless h file l core.net in
      let t = update_remaining_timeout_nc h timeout l.now core.net in
      let (net', came, idle) =
        receive_ack_from_lossless h file l i t.tv t.net
          (l.clock_pending i core.net.world pending.0, pending.1) (omega arith) in
      let accepted : (verify_checksum_ack (create_ack_packet i)
            && leb i (create_ack_packet i).ackno
            && ltb (create_ack_packet i).ackno (u32 (i + cong.window)))
          ≡ true =
        ground (arith, create_ack_packet_verifies i, create_ack_packet_ackno i) in
      (
        net',
        rw
            (
              sent_time_one i l.now,
              in_time,
              came,
              accepted,
              create_ack_packet_ackno i,
              lookup_one i l.now,
              take_off_one h i l.now packet
                  (record core { error = false; time_out = false; net = net' }) small,
            )
            refl,
        idle,
      )

  receive_all_lossless :
      (n i : ℕ) (core : SelectiveRepeatServer h) (cong : Congestion) (packet : Packet)
      → IsPending h file l i core.net
      → i + 1 < 2 ^ 32
      → 0 < cong.window
      → i + cong.window < 2 ^ 32
      → (net' : Net h) × (receive_all h (suc (suc n)) (out i packet core cong)
          ≡ done (received (i + 1) net' core cong))
        × IsIdle h file l (i + 1) net'
  unfolding receive_all poll_core poll has_data or_fault ◌then◌
  receive_all_lossless n i core cong packet pending small open_at no_wrap =
      let asked : Net h = record core.net { world = (Host.has_data h core.net.world).1 } in
      let (net1, came, idle) =
        receive_ack_lossless i (record core { net = asked }) cong packet
          (l.asked_pending i core.net.world pending.0, pending.1) small open_at no_wrap in
      let s1 : SelectiveRepeatCcServer h = received (i + 1) net1 core cong in
      (
        record net1 { world = (Host.has_data h net1.world).1 },
        repeat_round (poll_core h) take_one (suc n) (out i packet core cong) s1
              (l.data_pending i core.net.world pending.0) (rw came refl)
            ∙ repeat_stop (poll_core h) take_one n s1 (l.data_idle net1.world idle.0),
        (l.asked_idle net1.world idle.0, idle.1),
      )
    where
      take_one :
          SelectiveRepeatCcServer h → Run (SelectiveRepeatCcServer h) (SelectiveRepeatCcServer h)
      take_one s' = or_fault (receive_ack h s') then λ (ok, s''). done s''

  pub after_sending_lossless :
      (n : ℕ) (core : SelectiveRepeatServer h) (cong : Congestion) (packet : Packet)
      → IsPending h file l core.seq_no core.net
      → core.seq_no + 1 < 2 ^ 32
      → 0 < cong.window
      → core.seq_no + cong.window < 2 ^ 32
      → (net' : Net h) × (after_sending h
            (suc (suc n))
            packet
            (record { core = with_none h core.seq_no core; cong = cong })
          ≡ done (
              received
                (core.seq_no + 1)
                net'
                (record core { seq_no = u32 (core.seq_no + 1) })
                cong))
        × IsIdle h file l (core.seq_no + 1) net'
  unfolding after_sending time_now insert lookup ◌then◌ timers_or_return update_timers_from or_fault
  after_sending_lossless n core cong packet pending small open_at no_wrap =
      let net : Net h = record core.net { world = (Host.gettimeofday h core.net.world).1 } in
      let (net', came, idle) =
        receive_all_lossless n core.seq_no
          (record core { seq_no = u32 (core.seq_no + 1); net = net }) cong packet
          (l.clock_pending core.seq_no core.net.world pending.0, pending.1) small open_at no_wrap in
      (net', rw (l.clock core.net.world, came) refl, idle)
