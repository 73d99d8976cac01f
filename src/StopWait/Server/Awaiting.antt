-- ===== src/StopWait/Server/Awaiting.antt =====
-- StopWaitServer.cpp: from sending a packet to its acknowledgement.
use reliable_data_transfer.Base.{
  ℕ, zero, suc, ◌+◌, ◌%◌, ◌^◌, Bool, List, ◌≡◌, refl, sym, subst, inl, inr, arith, Bool-cases,
  if-both, ◌&&◌, ◌==◌, u32,
}
use reliable_data_transfer.Packet.{AckPacket, verify_checksum_ack}
use reliable_data_transfer.DataManagers.Reading.{Reads}
use reliable_data_transfer.Socket.{
  Host, Net, time_now, update_remaining_timeout, receive_ack_from, receive_ack_packet,
}
use reliable_data_transfer.Socket.Genuine.{Fits}
use reliable_data_transfer.Run.{
  Run, done, or_fault, Ensures, then-Ensures, bind-Ensures, or_fault-Ensures,
}
use reliable_data_transfer.StopWait.Server.{
  Answer, acked, late, failed, StopWaitServer, judge, await_ack,
}
use reliable_data_transfer.StopWait.Server.Sequence.{
  InSequence, next, IsSound, IsBetween, IsWaiting, IsWaiting-IsSound,
}

module _ (h : Host) (file : List ℕ) (fits : Fits file) where
  -- Packet `i` is on its way.
  abbrev pub Waits : ℕ → StopWaitServer h → Type 0
  Waits i s = IsWaiting h file s × (s.seq_no ≡ i)

  abbrev pub After : ℕ → Answer × StopWaitServer h → Type 0
  After i (acked, s) = IsBetween h file s
  After i (late, s) = Waits i s
  After i (failed, s) = Waits i s

  with_reception-Waits :
      (i : ℕ) (s : StopWaitServer h) (error time_out : Bool) (net : Net h)
      → Waits i s
      → net.sent ≡ s.net.sent
      → Waits i (record s { error = error; time_out = time_out; net = net })
  with_reception-Waits i s error time_out net (p, e) same = (
    record {
      sequence = subst (InSequence file s.seq_no) (sym same) p.sequence;
      sent = p.sent;
      reads = p.reads;
    },
    e,
  )

  acked-IsBetween :
      (i : ℕ) (s : StopWaitServer h)
      → Waits i s
      → IsBetween h file (record s { seq_no = u32 (s.seq_no + 1) })
  acked-IsBetween i s (p, e) =
      let no_wrap : s.seq_no + 1 ≡ (s.seq_no + 1) % 2 ^ 32 = omega (arith, p.sent) in
      record {
        sequence =
            subst (λ k. InSequence file k s.net.sent) no_wrap (next s.seq_no s.net.sent p.sequence);
        reads = subst (λ k. Reads file k s.data_feeder) no_wrap p.reads;
      }

  judge-After :
      (i : ℕ) (s : StopWaitServer h) (ack : AckPacket)
      (bad : Run (StopWaitServer h) (Answer × StopWaitServer h))
      → Waits i s
      → Ensures (IsSound h file) (After i) bad
      → Ensures (IsSound h file) (After i) (judge h s ack bad)
  unfolding judge
  judge-After i s ack bad p others =
      if-both P s.time_out _ _ (λ _. p)
        (λ _.
          if-both P s.error _ _ (λ _. p)
            (λ _.
              if-both P (verify_checksum_ack ack && (ack.ackno == s.seq_no))
                (done (acked, record s { seq_no = u32 (s.seq_no + 1) })) bad
                (λ _. acked-IsBetween i s p) (λ _. others)))
    where
      P : Run (StopWaitServer h) (Answer × StopWaitServer h) → Type 0
      P = Ensures (IsSound h file) (After i)

  receive_ack_from-sent :
      (net : Net h) (tv : ℕ)
      → Ensures
          (IsSound h file)
          (λ (c, net'). Net.sent net' ≡ net.sent)
          (or_fault (receive_ack_from h net tv))
  unfolding receive_ack_from or_fault
  receive_ack_from-sent net tv =
      bind-Ensures (IsSound h file) (λ c. Unit) _
        (receive_ack_packet (Host.recvfrom h tv net.world).0) _
        (or_fault-Ensures (IsSound h file) (λ c. Unit) _ (λ c e. tt)) (λ c u. refl)

  pub await_ack-After :
      (rounds tv send_time i : ℕ) (s : StopWaitServer h)
      → Waits i s
      → Ensures (IsSound h file) (After i) (await_ack h rounds tv send_time s)
  unfolding await_ack update_remaining_timeout time_now
  await_ack-After zero tv send_time i s p = IsWaiting-IsSound h file s p.0
  await_ack-After (suc n) tv send_time i s p =
      let t = update_remaining_timeout h tv send_time s.net in
      elim (Bool-cases t.over) [
        | inl over ↦
            rw (over, await_ack, Ensures) (with_reception-Waits i s s.error s.time_out t.net p refl)
        | inr not_over ↦
            rw (not_over, await_ack)
              (then-Ensures (IsSound h file) _ (After i) (or_fault (receive_ack_from h t.net t.tv))
                _ (receive_ack_from-sent t.net t.tv)
                (λ (c, net) same.
                  let s' : StopWaitServer h = record s {
                    error = c.error;
                    time_out = c.time_out;
                    net = net;
                  } in
                  let p' = with_reception-Waits i s c.error c.time_out net p same in
                  judge-After i s' c.packet _ p' (await_ack-After n t.tv t.old_time i s' p')))
      ]
