-- ===== src/GoBackN/Server/Acknowledged.antt =====
-- GoBackServer.cpp over a network that loses nothing: one packet and its acknowledgement.
use reliable_data_transfer.Base.{
  ℕ, suc, ◌+◌, ◌<◌, ◌^◌, Bool, true, false, List, [], ◌∷◌, ◌++◌, some, ◌≡◌, refl, ap, ◌∙◌, arith,
  u32, ◌&&◌, ltb, leb, if◌then◌else◌,
}
use reliable_data_transfer.Packet.{create_ack_packet, verify_checksum_ack}
use reliable_data_transfer.DataManagers.Reading.{Reads}
use reliable_data_transfer.Socket.{
  Host, timeout, time_now, has_data, may_receive, update_remaining_timeout_nc,
}
use reliable_data_transfer.Socket.Genuine.{Fits, sent_packet}
use reliable_data_transfer.Socket.Lossless.{
  IsLossless, IsIdle, IsPending, create_ack_packet_verifies, create_ack_packet_ackno,
  receive_ack_from_lossless, update_remaining_timeout_nc_lossless,
}
use reliable_data_transfer.Run.{Run, done, ◌then◌, or_fault, repeat_round, repeat_stop}
use reliable_data_transfer.GoBackN.Server.{
  GoBackServer, slide, is_empty, restart_timer, acknowledge, receive_ack, update_timer, poll,
  receive_all, after_sending,
}
use reliable_data_transfer.GoBackN.Server.Window.{packets, slide_within}

module _ (h : Host) (file : List ℕ) (fits : Fits file) (l : IsLossless h file) (window : ℕ) where
  -- Between two packets nothing is out, and the network is idle.
  pub record IsReady (i : ℕ) (s : GoBackServer h) : Type 0 where
    pub number : s.seq_no ≡ i
    pub base : s.base_seq_no ≡ i
    pub none_out : s.unacked_packet ≡ []
    pub reads : Reads file i s.data_feeder
    pub idle : IsIdle h file l i s.net

  -- Packet `i` is out, and its acknowledgement is pending.
  record IsOut (i : ℕ) (s : GoBackServer h) : Type 0 where
    number : s.seq_no ≡ i + 1
    base : s.base_seq_no ≡ i
    one_out : s.unacked_packet ≡ sent_packet file i ∷ []
    reads : Reads file (i + 1) s.data_feeder
    pending : IsPending h file l i s.net
    started : s.send_time ≡ l.now

  -- The acknowledgement takes the packet off the window.
  receive_ack_lossless :
      (i : ℕ) (s : GoBackServer h)
      → IsOut i s
      → i + 1 < 2 ^ 32
      → 0 < window
      → i + window < 2 ^ 32
      → (s' : GoBackServer h) × (receive_ack h window s ≡ some (true, s'))
        × IsReady (i + 1) s'
        × (s'.send_time ≡ l.now)
  unfolding receive_ack acknowledge may_receive update_remaining_timeout_nc time_now packets
      is_empty
  receive_ack_lossless i s o small open_at no_wrap =
      let in_time : (update_remaining_timeout_nc h timeout s.send_time s.net).over ≡ false =
        rw o.started (update_remaining_timeout_nc_lossless h file l s.net) in
      let t = update_remaining_timeout_nc h timeout s.send_time s.net in
      let (net', received, idle) =
        receive_ack_from_lossless h file l i t.tv t.net
          (l.clock_pending i s.net.world o.pending.0, o.pending.1) (omega arith) in
      let accepted : (verify_checksum_ack (create_ack_packet i)
            && leb s.base_seq_no (create_ack_packet i).ackno
            && ltb (create_ack_packet i).ackno (u32 (s.base_seq_no + window)))
          ≡ true =
        ground (arith, create_ack_packet_verifies i, create_ack_packet_ackno i, o.base) in
      let slid : slide (create_ack_packet i).ackno s.base_seq_no s.unacked_packet
          ≡ some (i + 1, []) =
        rw (create_ack_packet_ackno i, o.base, o.one_out)
          (slide_within file i i 1 0 (omega arith) (omega arith) (omega arith)) in
      (
        record s {
          base_seq_no = i + 1;
          unacked_packet = [];
          error = false;
          time_out = false;
          net = net';
        },
        rw (in_time, receive_ack, received, accepted, slid) refl,
        record { number = o.number; base = refl; none_out = refl; reads = o.reads; idle = idle },
        o.started,
      )

  receive_all_lossless :
      (n i : ℕ) (s : GoBackServer h)
      → IsOut i s
      → i + 1 < 2 ^ 32
      → 0 < window
      → i + window < 2 ^ 32
      → (s' : GoBackServer h) × (receive_all h (suc (suc n)) window s ≡ done s')
        × IsReady (i + 1) s'
        × (s'.send_time ≡ l.now)
  unfolding receive_all poll has_data or_fault ◌then◌
  receive_all_lossless n i s o small open_at no_wrap =
      let asked : IsOut i (poll h s).1 = record {
        number = o.number;
        base = o.base;
        one_out = o.one_out;
        reads = o.reads;
        pending = (l.asked_pending i s.net.world o.pending.0, o.pending.1);
        started = o.started;
      } in
      let (s1, received, r, started) =
        receive_ack_lossless i (poll h s).1 asked small open_at no_wrap in
      (
        (poll h s1).1,
        repeat_round (poll h) take_one (suc n) s s1 (l.data_pending i s.net.world o.pending.0)
              (rw received refl)
            ∙ repeat_stop (poll h) take_one n s1 (l.data_idle s1.net.world r.idle.0),
        record {
          number = r.number;
          base = r.base;
          none_out = r.none_out;
          reads = r.reads;
          idle = (l.asked_idle s1.net.world r.idle.0, r.idle.1);
        },
        started,
      )
    where
      take_one : GoBackServer h → Run (GoBackServer h) (GoBackServer h)
      take_one s' = or_fault (receive_ack h window s') then λ (ok, s''). done s''

  update_timer_lossless :
      (i : ℕ) (s : GoBackServer h)
      → IsReady i s
      → s.send_time ≡ l.now
      → IsReady i (update_timer h s).1
  unfolding update_timer update_remaining_timeout_nc time_now
  update_timer_lossless i s r started =
      let in_time : (update_remaining_timeout_nc h timeout s.send_time s.net).over ≡ false =
        rw started (update_remaining_timeout_nc_lossless h file l s.net) in
      rw (in_time, update_timer)
        (record {
          number = r.number;
          base = r.base;
          none_out = r.none_out;
          reads = r.reads;
          idle = (l.clock_idle s.net.world r.idle.0, r.idle.1);
        })

  pub after_sending_lossless :
      (n i : ℕ) (s : GoBackServer h)
      → s.seq_no ≡ i
      → s.base_seq_no ≡ i
      → s.unacked_packet ≡ []
      → Reads file (i + 1) s.data_feeder
      → IsPending h file l i s.net
      → 0 < window
      → i + 1 + window < 2 ^ 32
      → (s' : GoBackServer h) × (after_sending h (suc (suc n)) window (sent_packet file i) s
          ≡ done s')
        × IsReady (i + 1) s'
  unfolding after_sending restart_timer time_now is_empty ◌then◌
  after_sending_lossless n i s number base none_out reads pending open_at no_wrap =
      let started : GoBackServer h = restart_timer h s in
      let out : GoBackServer h = record started {
        seq_no = u32 (s.seq_no + 1);
        unacked_packet = s.unacked_packet ++ sent_packet file i ∷ [];
      } in
      let (s1, received, r, still) =
        receive_all_lossless n i out
          (record {
            number = omega arith;
            base = base;
            one_out = ap (λ ps. ps ++ sent_packet file i ∷ []) none_out;
            reads = reads;
            pending = (l.clock_pending i s.net.world pending.0, pending.1);
            started = l.clock s.net.world;
          })
          (omega arith) open_at (omega arith) in
      (
        (update_timer h s1).1,
        ap (λ b. sending b) (ap is_empty none_out) ∙ ap (λ r. r then timed) received,
        update_timer_lossless (i + 1) s1 r still,
      )
    where
      timed : GoBackServer h → Run (GoBackServer h) (GoBackServer h)
      timed s' = done (update_timer h s').1

      sending : Bool → Run (GoBackServer h) (GoBackServer h)
      sending b =
          let s' : GoBackServer h = if b then restart_timer h s else s in
          receive_all h (suc (suc n)) window (record s' {
            seq_no = u32 (s'.seq_no + 1);
            unacked_packet = s'.unacked_packet ++ sent_packet file i ∷ [];
          })
          then timed
