-- ===== src/SelectiveRepeat/Server/Completing.antt =====
-- SelectiveRepeatServer.cpp over a network that loses nothing.
use reliable_data_transfer.Base.{
  ℕ, zero, suc, ◌+◌, ◌*◌, ◌≤◌, ◌<◌, ◌^◌, Bool, true, false, not, List, [], some, ◌≡◌, refl, sym, ap,
  subst, ◌∙◌, inl, inr, arith, length, Bool-cases, u32, ltb, if◌then◌else◌,
}
use reliable_data_transfer.Packet.{create_core_packet}
use reliable_data_transfer.DataManagers.{has_next, get_next_data_segment}
use reliable_data_transfer.DataManagers.Feeding.{Feeds}
use reliable_data_transfer.DataManagers.Reading.{Reads, Reads-next, Reads-over, Feeds-Reads}
use reliable_data_transfer.Socket.{Host, transmit}
use reliable_data_transfer.Socket.Genuine.{Fits, sent_packet, create-sent_packet}
use reliable_data_transfer.Socket.Lossless.{
  IsLossless, IsIdle, IsPending, no_datagrams, IsAllOnce, transmit_lossless,
}
use reliable_data_transfer.Run.{
  Run, done, ◌then◌, or_fault, repeat, Ensures, repeat_round, repeat_stop,
}
use reliable_data_transfer.SelectiveRepeat.Server.{
  SelectiveRepeatServer, is_empty, send_next, send_or_wait, wait, send_message,
}
use reliable_data_transfer.SelectiveRepeat.Server.Order.{IsFinished}
use reliable_data_transfer.SelectiveRepeat.Server.Finishing.{selective_repeat_server_sends}
use reliable_data_transfer.SelectiveRepeat.Server.Acknowledged.{with_none, after_sending_lossless}

module _ (h : Host) (file : List ℕ) (fits : Fits file) (l : IsLossless h file)
    (keeps : Host.keeps_freed h ≡ true) (window : ℕ) where
  -- Between two packets, over an idle network.
  record IsReady (i : ℕ) (s : SelectiveRepeatServer h) : Type 0 where
    number : s.seq_no ≡ i
    reads : Reads file i s.data_feeder
    idle : IsIdle h file l i s.net

  send_next_lossless :
      (n i : ℕ) (s : SelectiveRepeatServer h)
      → IsReady i s
      → has_next s.data_feeder ≡ true
      → 0 < window
      → i + 1 + window < 2 ^ 32
      → (s' : SelectiveRepeatServer h) × (send_or_wait h
            (suc (suc n))
            window
            (with_none h s.seq_no s)
          ≡ done (with_none h s'.seq_no s'))
        × IsReady (i + 1) s'
  unfolding send_or_wait send_next ◌then◌ or_fault
  send_next_lossless n i s r more open_at no_wrap =
      let (sent, e, reads) = Reads-next file i s.data_feeder r.reads more in
      let feeder = (get_next_data_segment s.data_feeder).0 in
      let built : create_core_packet (get_next_data_segment s.data_feeder).1 s.seq_no
          ≡ some (sent_packet file i) =
        rw (e, r.number) (create-sent_packet file i) in
      let (kept, pending) = transmit_lossless h file l i s.net r.idle sent in
      let room : ltb s.seq_no (u32 (s.seq_no + window)) ≡ true = ground (arith, r.number) in
      let s1 : SelectiveRepeatServer h = record s {
        data_feeder = feeder;
        net = (transmit h s.net (sent_packet file i)).1;
      } in
      let (net', finished, idle) =
        after_sending_lossless h file fits l keeps window n s1 (sent_packet file i)
          (subst (λ k. IsPending h file l k s1.net) (sym r.number) pending)
          (omega (arith, r.number)) open_at (omega (arith, r.number)) in
      let next : s.seq_no + 1 ≡ u32 (s.seq_no + 1) = omega (arith, r.number) in
      let s' : SelectiveRepeatServer h = record s1 {
        seq_no = u32 (s.seq_no + 1);
        error = false;
        time_out = false;
        net = net';
      } in
      (
        s',
        rw (room, built, kept) finished ∙ ap (λ base. done (with_none h base s')) next,
        record {
          number = omega (arith, r.number);
          reads = reads;
          idle = subst (λ k. IsIdle h file l (k + 1) net') r.number idle;
        },
      )

  -- A round for each packet that is left, and one more.
  repeat_lossless :
      (n rounds i : ℕ) (s : SelectiveRepeatServer h)
      → IsReady i s
      → length file + 1024 ≤ 512 * (n + i)
      → 0 < window
      → length file + 512 * window + 1024 < 512 * 2 ^ 32
      → (s' : SelectiveRepeatServer h) × (repeat n
            (λ s. (has_next s.data_feeder, s))
            (send_or_wait h (suc (suc rounds)) window)
            (with_none h s.seq_no s)
          ≡ done (with_none h s'.seq_no s'))
        × IsAllOnce file s'.net.sent
  repeat_lossless zero rounds i s r enough open_at no_wrap = absurd (omega (arith, r.reads.most))
  repeat_lossless (suc n) rounds i s r enough open_at no_wrap =
      elim (Bool-cases (has_next s.data_feeder)) [
        | inr stop ↦ (
          s,
          repeat_stop _ _ n (with_none h s.seq_no s) stop,
          record {
            count = i;
            in_order = r.idle.1;
            whole = Reads-over file i s.data_feeder r.reads stop;
            no_more = r.reads.most;
          },
        )
        | inl more ↦
            let (sent, e, reads) = Reads-next file i s.data_feeder r.reads more in
            let (s1, sent_one, r1) = send_next_lossless rounds i s r more open_at (omega arith) in
            let (s2, e2, all) =
              repeat_lossless n rounds (i + 1) s1 r1 (omega arith) open_at no_wrap in
            (
              s2,
              repeat_round _ _ n (with_none h s.seq_no s) (with_none h s1.seq_no s1) more sent_one
                  ∙ e2,
              all,
            )
      ]

  -- Over such a network every packet goes out once, in its order, before the server ends.
  pub selective_repeat_server_sends_all :
      (rounds : ℕ) (s : SelectiveRepeatServer h)
      → Feeds file 0 s.data_feeder
      → s.seqnums_sent ≡ []
      → s.data_sent ≡ []
      → s.acks ≡ []
      → s.net.sent ≡ []
      → l.Idle s.net.world
      → 0 < window
      → length file + 512 * window + 1024 < 512 * 2 ^ 32
      → length file + 1024 ≤ 512 * rounds
      → (s' : SelectiveRepeatServer h) × (send_message h rounds window s ≡ done s')
        × IsAllOnce file s'.net.sent
  unfolding send_message is_empty ◌then◌
  selective_repeat_server_sends_all zero s feeds no_times no_data no_acks none_sent idle open_at
        no_wrap enough =
      absurd (omega arith)
  selective_repeat_server_sends_all (suc zero) s feeds no_times no_data no_acks none_sent idle
        open_at no_wrap enough =
      absurd (omega arith)
  selective_repeat_server_sends_all (suc (suc n)) s feeds no_times no_data no_acks none_sent idle
        open_at no_wrap enough =
      let (s1, e, sent_all) =
        repeat_lossless (suc (suc n)) n 0 begin
          (record {
            number = refl;
            reads = Feeds-Reads file s.data_feeder feeds;
            idle = no_datagrams h file l s.net idle none_sent;
          })
          (omega arith) open_at no_wrap in
      let all : Run (SelectiveRepeatServer h) (SelectiveRepeatServer h) → Run _ _ =
        λ r. r then repeat (suc (suc n)) still_out (wait h (suc (suc n)) window) in
      (
        with_none h s1.seq_no s1,
        ap
              (λ b. all (
                repeat (suc (suc n)) (λ s. (has_next s.data_feeder, s))
                  (send_or_wait h (suc (suc n)) window) b))
              empty
            ∙ ap all e
            ∙ repeat_stop still_out _ (suc n) (with_none h s1.seq_no s1) refl,
        sent_all,
      )
    where
      begin : SelectiveRepeatServer h
      begin = record s { seq_no = 0; base_seq_no = 0; send_order = [] }

      empty : begin ≡ with_none h 0 begin
      empty =
          λ k. record begin { seqnums_sent = no_times k; data_sent = no_data k; acks = no_acks k }

      still_out : SelectiveRepeatServer h → Bool × SelectiveRepeatServer h
      still_out s' = (not (is_empty s'.seqnums_sent), s')

  -- Over a network that loses nothing and whose receiver acknowledges each packet at once, with a
  -- clock that stands still, a window that is not empty and whose end does not wrap, and memory in
  -- which the key of an erased map entry can still be read, which the language does not promise:
  -- the selective-repeat server ends without a fault after one round for each packet of the file
  -- and one more, and the base has come to the next number, behind every packet. The file has less
  -- than 512 * (2^32 - 2) bytes.
  pub selective_repeat_server_completes :
      (rounds : ℕ) (s : SelectiveRepeatServer h)
      → Feeds file 0 s.data_feeder
      → s.seqnums_sent ≡ []
      → s.data_sent ≡ []
      → s.acks ≡ []
      → s.net.sent ≡ []
      → l.Idle s.net.world
      → 0 < window
      → length file + 512 * window + 1024 < 512 * 2 ^ 32
      → length file + 1024 ≤ 512 * rounds
      → (s' : SelectiveRepeatServer h) × (send_message h rounds window s ≡ done s')
        × IsFinished h file s'
  selective_repeat_server_completes rounds s feeds no_times no_data no_acks none_sent idle open_at
        no_wrap enough =
      let (s', e, _) =
        selective_repeat_server_sends_all rounds s feeds no_times no_data no_acks none_sent idle
          open_at no_wrap enough in
      (
        s',
        e,
        subst (Ensures _ (IsFinished h file)) e (
            selective_repeat_server_sends h file fits window rounds s feeds no_times no_data no_acks
              none_sent),
      )
