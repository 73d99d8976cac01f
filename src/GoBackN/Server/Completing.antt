-- ===== src/GoBackN/Server/Completing.antt =====
-- GoBackServer.cpp over a network that loses nothing.
use reliable_data_transfer.Base.{
  ℕ, zero, suc, ◌+◌, ◌*◌, ◌≤◌, ◌<◌, ◌^◌, true, not, List, [], some, ◌≡◌, refl, ap, subst, ◌∙◌, inl,
  inr, arith, length, Bool-cases, u32, ltb, if◌then◌else◌,
}
use reliable_data_transfer.Packet.{create_core_packet}
use reliable_data_transfer.DataManagers.{has_next, get_next_data_segment}
use reliable_data_transfer.DataManagers.Feeding.{Feeds}
use reliable_data_transfer.DataManagers.Reading.{Reads-next, Reads-over, Feeds-Reads}
use reliable_data_transfer.Socket.{Host, transmit}
use reliable_data_transfer.Socket.Genuine.{Fits, sent_packet, create-sent_packet}
use reliable_data_transfer.Socket.Lossless.{IsLossless, no_datagrams, IsAllOnce, transmit_lossless}
use reliable_data_transfer.Run.{done, ◌then◌, or_fault, repeat, Ensures, repeat_round, repeat_stop}
use reliable_data_transfer.GoBackN.Server.{
  GoBackServer, is_empty, send_next, send_or_wait, wait, send_message,
}
use reliable_data_transfer.GoBackN.Server.Window.{IsFinished}
use reliable_data_transfer.GoBackN.Server.Finishing.{go_back_server_sends}
use reliable_data_transfer.GoBackN.Server.Acknowledged.{IsReady, after_sending_lossless}

module _ (h : Host) (file : List ℕ) (fits : Fits file) (l : IsLossless h file) (window : ℕ) where
  send_next_lossless :
      (n i : ℕ) (s : GoBackServer h)
      → IsReady h file fits l window i s
      → has_next s.data_feeder ≡ true
      → 0 < window
      → i + 1 + window < 2 ^ 32
      → (s' : GoBackServer h) × (send_or_wait h (suc (suc n)) window s ≡ done s')
        × IsReady h file fits l window (i + 1) s'
  unfolding send_or_wait send_next ◌then◌ or_fault
  send_next_lossless n i s r more open_at no_wrap =
      let (sent, e, reads) = Reads-next file i s.data_feeder r.reads more in
      let feeder = (get_next_data_segment s.data_feeder).0 in
      let built : create_core_packet (get_next_data_segment s.data_feeder).1 s.seq_no
          ≡ some (sent_packet file i) =
        rw (e, r.number) (create-sent_packet file i) in
      let (kept, pending) = transmit_lossless h file l i s.net r.idle sent in
      let room : ltb s.seq_no (u32 (s.base_seq_no + window)) ≡ true =
        ground (arith, r.number, r.base) in
      let s1 : GoBackServer h = record s {
        data_feeder = feeder;
        net = (transmit h s.net (sent_packet file i)).1;
      } in
      let (s', finished, r') =
        after_sending_lossless h file fits l window n i s1 r.number r.base r.none_out reads pending
          open_at no_wrap in
      (s', rw (room, built, kept) finished, r')

  -- A round for each packet that is left, and one more.
  repeat_lossless :
      (n rounds i : ℕ) (s : GoBackServer h)
      → IsReady h file fits l window i s
      → length file + 1024 ≤ 512 * (n + i)
      → 0 < window
      → length file + 512 * window + 1024 < 512 * 2 ^ 32
      → (s' : GoBackServer h) × (repeat n
            (λ s. (has_next s.data_feeder, s))
            (send_or_wait h (suc (suc rounds)) window)
            s
          ≡ done s')
        × (s'.unacked_packet ≡ [])
        × IsAllOnce file s'.net.sent
  repeat_lossless zero rounds i s r enough open_at no_wrap = absurd (omega (arith, r.reads.most))
  repeat_lossless (suc n) rounds i s r enough open_at no_wrap =
      elim (Bool-cases (has_next s.data_feeder)) [
        | inr stop ↦ (
          s,
          repeat_stop _ _ n s stop,
          r.none_out,
          record {
            count = i;
            in_order = r.idle.1;
            whole = Reads-over file i s.data_feeder r.reads stop;
            no_more = r.reads.most;
          },
        )
        | inl more ↦
            let (sent, e, reads) = Reads-next file i s.data_feeder r.reads more in
            let (s1, sent_one, r1) = send_next_lossless rounds i s r more open_at (omega arith) in
            let (s2, e2, out, all) =
              repeat_lossless n rounds (i + 1) s1 r1 (omega arith) open_at no_wrap in
            (s2, repeat_round _ _ n s s1 more sent_one ∙ e2, out, all)
      ]

  -- Over such a network every packet goes out once, in its order, before the server ends.
  pub go_back_server_sends_all :
      (rounds : ℕ) (s : GoBackServer h)
      → Feeds file 0 s.data_feeder
      → s.unacked_packet ≡ []
      → s.net.sent ≡ []
      → l.Idle s.net.world
      → 0 < window
      → length file + 512 * window + 1024 < 512 * 2 ^ 32
      → length file + 1024 ≤ 512 * rounds
      → (s' : GoBackServer h) × (send_message h rounds window s ≡ done s')
        × IsAllOnce file s'.net.sent
  unfolding send_message is_empty ◌then◌
  go_back_server_sends_all zero s feeds none_out none_sent idle open_at no_wrap enough =
      absurd (omega arith)
  go_back_server_sends_all (suc zero) s feeds none_out none_sent idle open_at no_wrap enough =
      absurd (omega arith)
  go_back_server_sends_all (suc (suc n)) s feeds none_out none_sent idle open_at no_wrap enough =
      let (s1, e, out, all) =
        repeat_lossless (suc (suc n)) n 0 (record s { seq_no = 0; base_seq_no = 0 })
          (record {
            number = refl;
            base = refl;
            none_out = none_out;
            reads = Feeds-Reads file s.data_feeder feeds;
            idle = no_datagrams h file l s.net idle none_sent;
          })
          (omega arith) open_at no_wrap in
      (
        s1,
        ap
              (λ r.
                r
                then repeat (suc (suc n)) (λ s. (not (is_empty s.unacked_packet), s))
                    (wait h (suc (suc n)) window))
              e
            ∙ repeat_stop (λ s. (not (is_empty s.unacked_packet), s)) _ (suc n) s1
                (ap (λ ps. not (is_empty ps)) out),
        all,
      )

  -- Over a network that loses nothing and whose receiver acknowledges each packet at once, with a
  -- clock that stands still, a window that is not empty and whose end does not wrap, the go-back-n
  -- server ends without a fault after one round for each packet of the file and one more, nothing
  -- being out and the base having come to the next number, behind every packet. The file has less
  -- than 512 * (2^32 - 2) bytes.
  pub go_back_server_completes :
      (rounds : ℕ) (s : GoBackServer h)
      → Feeds file 0 s.data_feeder
      → s.unacked_packet ≡ []
      → s.net.sent ≡ []
      → l.Idle s.net.world
      → 0 < window
      → length file + 512 * window + 1024 < 512 * 2 ^ 32
      → length file + 1024 ≤ 512 * rounds
      → (s' : GoBackServer h) × (send_message h rounds window s ≡ done s') × IsFinished h file s'
  go_back_server_completes rounds s feeds none_out none_sent idle open_at no_wrap enough =
      let (s', e, _) =
        go_back_server_sends_all rounds s feeds none_out none_sent idle open_at no_wrap enough in
      (
        s',
        e,
        subst (Ensures _ (IsFinished h file)) e
            (go_back_server_sends h file fits window rounds s feeds none_out none_sent),
      )
