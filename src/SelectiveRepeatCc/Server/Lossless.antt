-- ===== src/SelectiveRepeatCc/Server/Lossless.antt =====
-- selectiveRepeatCCServer.cpp over a network that loses nothing: every packet goes out once.
use reliable_data_transfer.Base.{
  ℕ, zero, suc, ◌+◌, ◌*◌, ◌≤◌, ◌<◌, ◌^◌, Bool, true, false, not, List, [], some, ◌≡◌, refl, sym, ap,
  subst, ◌∙◌, inl, inr, arith, length, Bool-cases, u32, ltb, if◌then◌else◌,
}
use reliable_data_transfer.Packet.{create_core_packet}
use reliable_data_transfer.DataManagers.{has_next, get_next_data_segment}
use reliable_data_transfer.DataManagers.Feeding.{Feeds}
use reliable_data_transfer.DataManagers.Reading.{Reads, Reads-next, Reads-over, Feeds-Reads}
use reliable_data_transfer.Socket.{Host, transmit}
use reliable_data_transfer.Socket.Genuine.{Fits, sent_packet, create-sent_packet}
use reliable_data_transfer.Socket.Lossless.{
  IsLossless, IsIdle, IsPending, no_datagrams, IsAllOnce, transmit_lossless,
}
use reliable_data_transfer.Run.{Run, done, ◌then◌, or_fault, repeat, repeat_round, repeat_stop}
use reliable_data_transfer.SelectiveRepeat.Server.{SelectiveRepeatServer, is_empty}
use reliable_data_transfer.SelectiveRepeat.Server.Acknowledged.{with_none}
use reliable_data_transfer.SelectiveRepeatCc.Congestion.{
  Congestion, new_congestion, acknowledge_one,
}
use reliable_data_transfer.SelectiveRepeatCc.Congestion.Reach.{
  IsAcked, none_yet, one_more, IsAcked-Reaches, reached-IsSane,
}
use reliable_data_transfer.SelectiveRepeatCc.Server.{
  SelectiveRepeatCcServer, send_next, send_or_wait, wait, send_message,
}
use reliable_data_transfer.SelectiveRepeatCc.Server.Acknowledged.{after_sending_lossless}

module _ (h : Host) (file : List ℕ) (fits : Fits file) (l : IsLossless h file) (org_window : ℕ)
    (dup_acks : List ℕ) (some_window : 1 ≤ org_window) where
  -- Nothing is out.
  abbrev at_rest : SelectiveRepeatServer h → Congestion → SelectiveRepeatCcServer h
  at_rest core cong = record { core = with_none h core.seq_no core; cong = cong }

  -- Between two packets, over an idle network: an acknowledgement has come for each packet.
  record IsReady (i : ℕ) (core : SelectiveRepeatServer h) (cong : Congestion) : Type 0 where
    number : core.seq_no ≡ i
    reads : Reads file i core.data_feeder
    idle : IsIdle h file l i core.net
    steps : IsAcked org_window dup_acks i cong

  send_next_lossless :
      (n i : ℕ) (core : SelectiveRepeatServer h) (cong : Congestion)
      → IsReady i core cong
      → has_next core.data_feeder ≡ true
      → i + i + 2 < 2 ^ 32
      → (core' : SelectiveRepeatServer h) × (send_or_wait h (suc (suc n)) (at_rest core cong)
          ≡ done (at_rest core' (acknowledge_one cong)))
        × IsReady (i + 1) core' (acknowledge_one cong)
  unfolding send_or_wait send_next ◌then◌ or_fault
  send_next_lossless n i core cong r more small =
      let sane =
        reached-IsSane org_window dup_acks some_window i cong
          (IsAcked-Reaches org_window dup_acks i cong r.steps) (omega arith) in
      let open_at : 0 < cong.window = omega (arith, sane.open_window) in
      let narrow : cong.window ≤ i + 1 = sane.bounded in
      let (sent, e, reads) = Reads-next file i core.data_feeder r.reads more in
      let feeder = (get_next_data_segment core.data_feeder).0 in
      let built : create_core_packet (get_next_data_segment core.data_feeder).1 core.seq_no
          ≡ some (sent_packet file i) =
        rw (e, r.number) (create-sent_packet file i) in
      let (kept, pending) = transmit_lossless h file l i core.net r.idle sent in
      let room : ltb core.seq_no (u32 (core.seq_no + cong.window)) ≡ true =
        ground (arith, r.number) in
      let core1 : SelectiveRepeatServer h = record core {
        data_feeder = feeder;
        net = (transmit h core.net (sent_packet file i)).1;
      } in
      let (net', finished, idle) =
        after_sending_lossless h file fits l n core1 cong (sent_packet file i)
          (subst (λ k. IsPending h file l k core1.net) (sym r.number) pending)
          (omega (arith, r.number)) open_at (omega (arith, r.number)) in
      let next : core.seq_no + 1 ≡ u32 (core.seq_no + 1) = omega (arith, r.number) in
      let core' : SelectiveRepeatServer h = record core1 {
        seq_no = u32 (core.seq_no + 1);
        error = false;
        time_out = false;
        net = net';
      } in
      (
        core',
        rw (room, built, kept) finished
            ∙ ap
                (λ base.
                  done (record { core = with_none h base core'; cong = acknowledge_one cong }))
                next,
        record {
          number = omega (arith, r.number);
          reads = reads;
          idle = subst (λ k. IsIdle h file l (k + 1) net') r.number idle;
          steps = one_more i cong r.steps;
        },
      )

  -- A round for each packet that is left, and one more.
  repeat_lossless :
      (n rounds i : ℕ) (core : SelectiveRepeatServer h) (cong : Congestion)
      → IsReady i core cong
      → length file + 1024 ≤ 512 * (n + i)
      → length file + 1536 ≤ 512 * 2 ^ 31
      → (core' : SelectiveRepeatServer h) × (cong' : Congestion) × (repeat n
            (λ s. (has_next s.core.data_feeder, s))
            (send_or_wait h (suc (suc rounds)))
            (at_rest core cong)
          ≡ done (at_rest core' cong'))
        × IsAcked org_window dup_acks core'.seq_no cong'
        × IsAllOnce file core'.net.sent
  repeat_lossless zero rounds i core cong r enough small = absurd (omega (arith, r.reads.most))
  repeat_lossless (suc n) rounds i core cong r enough small =
      elim (Bool-cases (has_next core.data_feeder)) [
        | inr stop ↦ (
          core,
          cong,
          repeat_stop _ _ n (at_rest core cong) stop,
          subst (λ k. IsAcked org_window dup_acks k cong) (sym r.number) r.steps,
          record {
            count = i;
            in_order = r.idle.1;
            whole = Reads-over file i core.data_feeder r.reads stop;
            no_more = r.reads.most;
          },
        )
        | inl more ↦
            let (sent, e, reads) = Reads-next file i core.data_feeder r.reads more in
            let (core1, sent_one, r1) =
              send_next_lossless rounds i core cong r more (omega arith) in
            let (core2, cong2, e2, steps, all) =
              repeat_lossless n rounds (i + 1) core1 (acknowledge_one cong) r1 (omega arith)
                small in
            (
              core2,
              cong2,
              repeat_round _ _ n (at_rest core cong) (at_rest core1 (acknowledge_one cong)) more
                    sent_one
                  ∙ e2,
              steps,
              all,
            )
      ]

  -- Over such a network every packet goes out once, in its order, before the server ends.
  pub congestion_server_sends_all :
      (rounds : ℕ) (worker : SelectiveRepeatServer h)
      → Feeds file 0 worker.data_feeder
      → worker.seqnums_sent ≡ []
      → worker.data_sent ≡ []
      → worker.acks ≡ []
      → worker.net.sent ≡ []
      → l.Idle worker.net.world
      → length file + 1536 ≤ 512 * 2 ^ 31
      → length file + 1024 ≤ 512 * rounds
      → (s' : SelectiveRepeatCcServer h) × (send_message h rounds org_window dup_acks worker
          ≡ done s')
        × IsAcked org_window dup_acks s'.core.seq_no s'.cong
        × IsAllOnce file s'.core.net.sent
  unfolding send_message is_empty ◌then◌
  congestion_server_sends_all zero worker feeds no_times no_data no_acks none_sent idle small
        enough =
      absurd (omega arith)
  congestion_server_sends_all (suc zero) worker feeds no_times no_data no_acks none_sent idle small
        enough =
      absurd (omega arith)
  congestion_server_sends_all (suc (suc n)) worker feeds no_times no_data no_acks none_sent idle
        small enough =
      let (core1, cong1, e, steps, sent_all) =
        repeat_lossless (suc (suc n)) n 0 begin cong
          (record {
            number = refl;
            reads = Feeds-Reads file worker.data_feeder feeds;
            idle = no_datagrams h file l worker.net idle none_sent;
            steps = none_yet;
          })
          (omega arith) small in
      let all : Run (SelectiveRepeatCcServer h) (SelectiveRepeatCcServer h)
          → Run (SelectiveRepeatCcServer h) (SelectiveRepeatCcServer h) =
        λ r. r then repeat (suc (suc n)) still_out (wait h (suc (suc n))) in
      (
        at_rest core1 cong1,
        ap
              (λ b. all (
                repeat (suc (suc n)) (λ s. (has_next s.core.data_feeder, s))
                  (send_or_wait h (suc (suc n))) b))
              empty
            ∙ ap all e
            ∙ repeat_stop still_out _ (suc n) (at_rest core1 cong1) refl,
        steps,
        sent_all,
      )
    where
      begin : SelectiveRepeatServer h
      begin = record worker { seq_no = 0; base_seq_no = 0; send_order = [] }

      cong : Congestion
      cong = new_congestion org_window dup_acks

      empty : record { core = begin; cong = cong } ≡ at_rest begin cong
      empty = λ k. record {
        core = record begin { seqnums_sent = no_times k; data_sent = no_data k; acks = no_acks k };
        cong = cong;
      }

      still_out : SelectiveRepeatCcServer h → Bool × SelectiveRepeatCcServer h
      still_out s' = (not (is_empty s'.core.send_order), s')
