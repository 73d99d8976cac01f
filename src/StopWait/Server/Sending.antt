-- ===== src/StopWait/Server/Sending.antt =====
-- StopWaitServer.cpp: `send_message` as a whole.
use reliable_data_transfer.Base.{
  ℕ, zero, suc, true, List, [], some, ◌≡◌, refl, sym, ap, subst, ◌∙◌, inl, inr, Bool-cases, if-both,
  some_inj,
}
use reliable_data_transfer.Packet.{create_core_packet}
use reliable_data_transfer.DataManagers.{has_next, get_next_data_segment}
use reliable_data_transfer.DataManagers.Feeding.{Feeds}
use reliable_data_transfer.DataManagers.Reading.{Reads-over, Reads-next, Feeds-Reads}
use reliable_data_transfer.Socket.{Host, timeout, time_now}
use reliable_data_transfer.Socket.Genuine.{Fits, sent_packet, create-sent_packet}
use reliable_data_transfer.Run.{
  returned, done, or_fault, Ensures, then-Ensures, repeat-Ensures, or_fault-Ensures,
}
use reliable_data_transfer.StopWait.Server.{
  Answer, acked, late, failed, StopWaitServer, now, await_ack, transmit_packet, resend_packet,
  finish_packet, send_next, send_message,
}
use reliable_data_transfer.StopWait.Server.Sequence.{
  InSequence, IsSound, IsBetween, IsFinished, IsBetween-IsSound, IsWaiting-IsSound, now-IsWaiting,
  transmit_packet-IsWaiting,
}
use reliable_data_transfer.StopWait.Server.Awaiting.{Waits, After, await_ack-After}
use reliable_data_transfer.StopWait.Server.Sequence.{start}

module _ (h : Host) (file : List ℕ) (fits : Fits file) where
  abbrev Sound : StopWaitServer h → Type 0
  Sound = IsSound h file

  abbrev Between : StopWaitServer h → Type 0
  Between = IsBetween h file

  transmitted-Waits :
      (i : ℕ) (s : StopWaitServer h)
      → Waits h file fits i s
      → Waits h file fits i (transmit_packet h (sent_packet file i) s).1
  unfolding transmit_packet
  transmitted-Waits i s (p, e) = (transmit_packet-IsWaiting h file s i e p, e)

  now-Waits :
      (i : ℕ) (s : StopWaitServer h) → Waits h file fits i s → Waits h file fits i (now h s).1
  unfolding now
  now-Waits i s (p, e) = (now-IsWaiting h file s p, e)

  resend_packet-IsBetween :
      (n rounds i : ℕ) (s : StopWaitServer h)
      → Waits h file fits i s
      → Ensures Sound Between (resend_packet h n rounds (sent_packet file i) s)
  unfolding resend_packet
  resend_packet-IsBetween zero rounds i s p = IsWaiting-IsSound h file s p.0
  resend_packet-IsBetween (suc n) rounds i s p =
      let t = transmit_packet h (sent_packet file i) s in
      let sent = transmitted-Waits i s p in
      elim (Bool-cases t.0) [
        | inr broken ↦ rw (broken, resend_packet, Ensures) (IsWaiting-IsSound h file t.1 sent.0)
        | inl fine ↦
            rw (fine, resend_packet)
              (then-Ensures Sound (After h file fits i) Between
                (await_ack h rounds timeout (now h t.1).0 (now h t.1).1) _
                (await_ack-After h file fits rounds timeout (now h t.1).0 i (now h t.1).1
                  (now-Waits i t.1 sent))
                (λ a p. next_round (λ s p. resend_packet-IsBetween n rounds i s p) a p))
      ]
    where
      next_round :
          ((s : StopWaitServer h)
            → Waits h file fits i s
            → Ensures Sound Between (resend_packet h n rounds (sent_packet file i) s))
          → (a : Answer × StopWaitServer h) → After h file fits i a
          → Ensures Sound Between (elim a.0 [
            | acked ↦ done a.1
            | late ↦ resend_packet h n rounds (sent_packet file i) a.1
            | failed ↦ resend_packet h n rounds (sent_packet file i) a.1
          ])
      next_round later (acked, s) p = p
      next_round later (late, s) p = later s p
      next_round later (failed, s) p = later s p

  finish_packet-IsBetween :
      (rounds i : ℕ) (s : StopWaitServer h)
      → Waits h file fits i s
      → Ensures Sound Between (finish_packet h rounds (sent_packet file i) s)
  unfolding finish_packet
  finish_packet-IsBetween rounds i s p =
      then-Ensures Sound (After h file fits i) Between
        (await_ack h rounds timeout (now h s).0 (now h s).1) _
        (await_ack-After h file fits rounds timeout (now h s).0 i (now h s).1 (now-Waits i s p))
        (λ a p. after a p)
    where
      after :
          (a : Answer × StopWaitServer h)
          → After h file fits i a
          → Ensures Sound Between (elim a.0 [
            | acked ↦ done a.1
            | late ↦ resend_packet h rounds rounds (sent_packet file i) (now h a.1).1
            | failed ↦ returned a.1
          ])
      after (acked, s) p = p
      after (late, s) p = resend_packet-IsBetween rounds rounds i _ (now-Waits i s p)
      after (failed, s) p = IsWaiting-IsSound h file s p.0

  send_next-IsBetween :
      (rounds : ℕ) (s : StopWaitServer h)
      → Between s
      → has_next s.data_feeder ≡ true
      → Ensures Sound Between (send_next h rounds s)
  unfolding send_next now time_now
  send_next-IsBetween rounds s p more =
      let (sent, e, reads) = Reads-next file s.seq_no s.data_feeder p.reads more in
      let segment = (get_next_data_segment s.data_feeder).1 in
      let built : create_core_packet segment s.seq_no ≡ some (sent_packet file s.seq_no) =
        ap (λ d. create_core_packet d s.seq_no) e ∙ create-sent_packet file s.seq_no in
      let s1 : StopWaitServer h =
        (now h (record s { data_feeder = (get_next_data_segment s.data_feeder).0 })).1 in
      let p1 : Waits h file fits s.seq_no s1 =
        (record { sequence = p.sequence; sent = sent; reads = reads }, refl) in
      let t = transmit_packet h (sent_packet file s.seq_no) s1 in
      let p2 = transmitted-Waits s.seq_no s1 p1 in
      then-Ensures Sound (λ packet. packet ≡ sent_packet file s.seq_no) Between
        (or_fault (create_core_packet segment s.seq_no)) _
        (or_fault-Ensures Sound _ _ (λ packet e'. some_inj (sym e' ∙ built)))
        (λ packet same. rw same (
          if-both (Ensures Sound Between) t.0 _ _
            (λ _. finish_packet-IsBetween rounds s.seq_no t.1 p2)
            (λ _. IsWaiting-IsSound h file t.1 p2.0)))

  -- Whatever the network, the clock and the random draws do, what the stop-and-wait server hands to
  -- sendto are the packets of the file in their order, each any number of times in a row, up to the
  -- current number. Where it ends, every packet of the file, the empty one included, has had its
  -- turn. The file has less than 512 * (2^32 - 2) bytes.
  pub stop_wait_server_sends :
      (rounds : ℕ) (s : StopWaitServer h)
      → Feeds file 0 s.data_feeder
      → s.net.sent ≡ []
      → Ensures (IsSound h file) (IsFinished h file) (send_message h rounds s)
  unfolding send_message
  stop_wait_server_sends rounds s feeds none_sent =
      repeat-Ensures Sound _ (send_next h rounds) Between (IsFinished h file)
        (IsBetween-IsSound h file) (λ s p more. send_next-IsBetween rounds s p more)
        (λ s p stop. record {
          sequence = p.sequence;
          whole = Reads-over file s.seq_no s.data_feeder p.reads stop;
        })
        rounds _
        (record {
          sequence = subst (InSequence file 0) (sym none_sent) start;
          reads = Feeds-Reads file s.data_feeder feeds;
        })
