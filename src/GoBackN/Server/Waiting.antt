-- ===== src/GoBackN/Server/Waiting.antt =====
-- GoBackServer.cpp: the timer, and waiting for acknowledgements.
use reliable_data_transfer.Base.{
  ℕ, zero, suc, ◌+◌, ◌*◌, ◌<◌, Bool, true, false, List, sym, subst, inl, inr, arith, Bool-cases,
  if-both, length,
}
use reliable_data_transfer.Socket.{
  Host, time_now, has_data, transmit, update_remaining_timeout_nc, timeout,
}
use reliable_data_transfer.Socket.Genuine.{Fits, sent_packet}
use reliable_data_transfer.Socket.Wire.{transmit-IsOfTransfer}
use reliable_data_transfer.Run.{done, or_fault, Ensures, then-Ensures, repeat-Ensures}
use reliable_data_transfer.GoBackN.Server.{
  GoBackServer, receive_ack, retransmit, update_timer, poll, receive_all, receive_while_ok,
  timer_or_return, wait,
}
use reliable_data_transfer.GoBackN.Server.Window.{IsSound, packets}
use reliable_data_transfer.GoBackN.Server.Acks.{
  InOrder, AckResult, restart_timer-InOrder, sent-InOrder, receive_ack-InOrder,
}

module _ (h : Host) (file : List ℕ) (fits : Fits file) (window least : ℕ) where
  abbrev Sound : GoBackServer h → Type 0
  Sound = IsSound h file window

  abbrev Good : GoBackServer h → Type 0
  Good = InOrder h file fits window least

  pub InOrder-Sound : (s : GoBackServer h) → Good s → Sound s
  InOrder-Sound s p = record {
    count = p.count;
    unacked = p.unacked;
    numbers = p.numbers;
    in_window = p.in_window;
    wire = p.wire;
  }

  retransmit-InOrder :
      (base n : ℕ) (first : Bool) (s : GoBackServer h)
      → 512 * (base + n) < length file + 1024
      → Good s
      → Good (retransmit h (packets file base n) first s).1
  unfolding retransmit packets
  retransmit-InOrder base zero first s le p = p
  retransmit-InOrder base (suc n) first s le p =
      let t = transmit h s.net (sent_packet file base) in
      let p' =
        sent-InOrder h file fits window least s s.error s.time_out t.1 p
          (transmit-IsOfTransfer h file base s.net (omega arith) p.wire) in
      elim (Bool-cases t.0) [
        | inr failed ↦ rw (failed, retransmit) p'
        | inl fine ↦
            rw (fine, retransmit)
              (retransmit-InOrder (base + 1) n false _ (omega arith) (
                if-both Good first _ _ (λ _. restart_timer-InOrder h file fits window least _ p')
                  (λ _. p')))
      ]

  pub update_timer-InOrder : (s : GoBackServer h) → Good s → Good (update_timer h s).1
  unfolding update_timer update_remaining_timeout_nc time_now
  update_timer-InOrder s p =
      let t = update_remaining_timeout_nc h timeout s.send_time s.net in
      let s1 : GoBackServer h = record s { net = t.net } in
      let p1 : Good s1 =
        sent-InOrder h file fits window least s s.error s.time_out t.net p p.wire in
      if-both (λ (r : Bool × GoBackServer h). Good r.1) t.over _ _
        (λ _.
          subst (λ ps. Good (retransmit h ps true s1).1) (sym p.unacked)
            (retransmit-InOrder s.base_seq_no p.count true s1
              (omega (arith, p.numbers, p.reads.most)) p1))
        (λ _. p1)

  poll-InOrder : (s : GoBackServer h) → Good s → Good (poll h s).1
  unfolding poll has_data
  poll-InOrder s p = sent-InOrder h file fits window least s s.error s.time_out _ p p.wire

  pub receive_all-InOrder :
      (rounds : ℕ) (s : GoBackServer h) → Good s → Ensures Good Good (receive_all h rounds window s)
  unfolding receive_all
  receive_all-InOrder rounds s p =
      repeat-Ensures Good (poll h) _ Good Good (λ s p. p)
        (λ s p more.
          then-Ensures Good (AckResult h file fits window least) Good
            (or_fault (receive_ack h window (poll h s).1)) _
            (receive_ack-InOrder h file fits window least _ (poll-InOrder s p)) (λ (ok, s) p. p))
        (λ s p stop. poll-InOrder s p) rounds s p

  receive_while_ok-InOrder :
      (rounds : ℕ) (s : GoBackServer h)
      → Good s
      → Ensures Good Good (receive_while_ok h rounds window s)
  unfolding receive_while_ok
  receive_while_ok-InOrder zero s p = p
  receive_while_ok-InOrder (suc n) s p = elim (Bool-cases (poll h s).0) [
    | inr stop ↦ rw (stop, receive_while_ok, Ensures) (poll-InOrder s p)
    | inl more ↦
        rw (more, receive_while_ok)
          (then-Ensures Good (AckResult h file fits window least) Good
            (or_fault (receive_ack h window (poll h s).1)) _
            (receive_ack-InOrder h file fits window least _ (poll-InOrder s p))
            (λ r p. next (λ s p. receive_while_ok-InOrder n s p) r p))
  ]
    where
      next :
          ((s : GoBackServer h) → Good s → Ensures Good Good (receive_while_ok h n window s))
          → (r : Bool × GoBackServer h) → Good r.1
          → Ensures Good Good
              (elim r.0 [ true ↦ receive_while_ok h n window r.1 | false ↦ done r.1 ])
      next again (true, s) p = again s p
      next again (false, s) p = p

  pub wait-InOrder :
      (rounds : ℕ) (s : GoBackServer h) → Good s → Ensures Good Good (wait h rounds window s)
  unfolding wait timer_or_return
  wait-InOrder rounds s p =
      then-Ensures Good Good Good (receive_while_ok h rounds window s) (timer_or_return h)
        (receive_while_ok-InOrder rounds s p)
        (λ s p.
          if-both (Ensures Good Good) (update_timer h s).0 _ _ (λ _. update_timer-InOrder s p)
            (λ _. update_timer-InOrder s p))
