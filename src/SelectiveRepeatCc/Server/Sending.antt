-- ===== src/SelectiveRepeatCc/Server/Sending.antt =====
-- selectiveRepeatCCServer.cpp: what sending packets again keeps, and waiting.
use reliable_data_transfer.Base.{
  ℕ, zero, suc, ◌+◌, ◌*◌, ◌≤◌, ◌<◌, ◌^◌, Bool, true, false, List, [], ◌∷◌, some, ◌≡◌, refl, ap, ◌∙◌,
  inl, inr, length, Bool-cases, if-both, Option-cases,
}
use reliable_data_transfer.Base.Maps.{lookup, has}
use reliable_data_transfer.Socket.{
  Host, time_now, transmit, has_data, update_remaining_timeout_nc, timeout,
}
use reliable_data_transfer.Socket.Genuine.{Fits, IsSent, sent_packet, sent_packet-IsSentPacket}
use reliable_data_transfer.Run.{returned, done, or_fault, Ensures, then-Ensures, repeat-Ensures}
use reliable_data_transfer.SelectiveRepeat.Server.{SelectiveRepeatServer, resend, poll}
use reliable_data_transfer.SelectiveRepeat.Server.Sending.{resend-Ok}
use reliable_data_transfer.SelectiveRepeatCc.Server.{
  SelectiveRepeatCcServer, decreased, receive_ack, update_timers_from, poll_core, receive_all,
  receive_while_ok, timers_or_return, wait,
}
use reliable_data_transfer.SelectiveRepeatCc.Server.Order.{
  IsCcSound, IsSteady, Queued, Queued-again,
}
use reliable_data_transfer.SelectiveRepeatCc.Server.Acknowledging.{
  Steady-Sound, decreased-Steady, with_net-Steady, receive_ack-Steady,
}

module _ (h : Host) (file : List ℕ) (fits : Fits file) (roomy : length file + 2048 ≤ 512 * 2 ^ 32)
    (least : ℕ) where
  abbrev Ok : SelectiveRepeatCcServer h → Type 0
  Ok = IsSteady h file least

  abbrev Stopped : SelectiveRepeatCcServer h → Type 0
  Stopped = IsCcSound h file

  abbrev OkResult : Bool × SelectiveRepeatCcServer h → Type 0
  OkResult r = Ok r.1

  sound : (s : SelectiveRepeatCcServer h) → Ok s → Stopped s
  sound = Steady-Sound h file fits roomy least

  resend-Counts :
      (i : ℕ) (s : SelectiveRepeatServer h)
      → Queued s.seqnums_sent s.send_order
      → (let r = resend h i (sent_packet file i) s in
          Queued (r.1).seqnums_sent (r.1).send_order
          × ((r.1).data_sent ≡ s.data_sent)
          × ((r.1).seq_no ≡ s.seq_no))
  unfolding resend
  resend-Counts i s q =
      let number : (sent_packet file i).seqno ≡ i = (sent_packet-IsSentPacket file i).number in
      let t = transmit h s.net (sent_packet file i) in
      elim (Bool-cases t.0) [
        | inl out ↦ rw (out, number) (Queued-again i _ s.seqnums_sent s.send_order q, refl, refl)
        | inr failed ↦ rw failed (q, refl, refl)
      ]

  resend-Steady :
      (i : ℕ) (s : SelectiveRepeatCcServer h)
      → Ok s
      → IsSent file i
      → i < s.core.seq_no
      → Ok (record s { core = (resend h i (sent_packet file i) s.core).1 })
  resend-Steady i s p sent lt =
      let (queued, same_data, same_seq) = resend-Counts i s.core p.queued in
      record {
        in_order = resend-Ok h file fits (2 ^ 32) least i s.core p.in_order sent lt;
        queued = queued;
        most = p.most;
        budget = rw (same_data, same_seq) p.budget;
        sane = p.sane;
      }

  update_timers_from-Ok :
      (order : List ℕ) (s : SelectiveRepeatCcServer h)
      → Ok s
      → Ensures Stopped OkResult (or_fault (update_timers_from h order s))
  unfolding update_timers_from or_fault update_remaining_timeout_nc time_now
  update_timers_from-Ok [] s p = p
  update_timers_from-Ok (i ∷ order) s p = elim (Option-cases (lookup i s.core.seqnums_sent)) [
    | inl missing ↦ rw (missing, update_timers_from) tt
    | inr (send_time, there) ↦
        let t = update_remaining_timeout_nc h timeout send_time s.core.net in
        let s1 : SelectiveRepeatCcServer h = record s { core = record s.core { net = t.net } } in
        let p1 : Ok s1 = with_net-Steady h file fits roomy least s t.net p p.in_order.wire in
        elim (Bool-cases t.over) [
          | inr in_time ↦ rw (there, in_time, update_timers_from) p1
          | inl over ↦
              let p2 = decreased-Steady h file fits roomy least s1 p1 in
              elim (Option-cases (lookup i s.core.data_sent)) [
                | inl missing ↦ rw (there, over, missing, update_timers_from) p2
                | inr (packet, kept) ↦
                    let (same, sent) = p.in_order.stores i packet kept in
                    let ours : lookup i s.core.data_sent ≡ some (sent_packet file i) =
                      kept ∙ ap some same in
                    let lt : i < s.core.seq_no = p.in_order.timed i (ap has there) in
                    let p3 = resend-Steady i (decreased h s1) p2 sent lt in
                    rw (there, over, ours, update_timers_from)
                      (further (λ s p. update_timers_from-Ok order s p)
                        (resend h i (sent_packet file i) s1.core).0 _ p3)
              ]
        ]
  ]
    where
      further :
          ((s : SelectiveRepeatCcServer h)
            → Ok s
            → Ensures Stopped OkResult (or_fault (update_timers_from h order s)))
          → (sent : Bool) (s : SelectiveRepeatCcServer h) → Ok s
          → Ensures Stopped OkResult (
              or_fault
                (elim sent [ true ↦ update_timers_from h order s | false ↦ some (false, s) ]))
      further later true s p = later s p
      further later false s p = p

  pub timers_or_return-Ok :
      (s : SelectiveRepeatCcServer h) → Ok s → Ensures Stopped Ok (timers_or_return h s)
  unfolding timers_or_return
  timers_or_return-Ok s p =
      then-Ensures Stopped OkResult Ok (or_fault (update_timers_from h s.core.send_order s)) _
        (update_timers_from-Ok s.core.send_order s p)
        (λ (ok, s) p.
          if-both (Ensures Stopped Ok) ok (done s) (returned s) (λ _. p) (λ _. sound s p))

  poll_core-Ok : (s : SelectiveRepeatCcServer h) → Ok s → Ok (poll_core h s).1
  unfolding poll_core poll has_data
  poll_core-Ok s p = with_net-Steady h file fits roomy least s _ p p.in_order.wire

  pub receive_all-Ok :
      (rounds : ℕ) (s : SelectiveRepeatCcServer h)
      → Ok s
      → Ensures Stopped Ok (receive_all h rounds s)
  unfolding receive_all
  receive_all-Ok rounds s p =
      repeat-Ensures Stopped (poll_core h) _ Ok Ok sound
        (λ s p more.
          then-Ensures Stopped OkResult Ok (or_fault (receive_ack h (poll_core h s).1)) _
            (receive_ack-Steady h file fits roomy least _ (poll_core-Ok s p)) (λ (ok, s) p. p))
        (λ s p stop. poll_core-Ok s p) rounds s p

  receive_while_ok-Ok :
      (rounds : ℕ) (s : SelectiveRepeatCcServer h)
      → Ok s
      → Ensures Stopped Ok (receive_while_ok h rounds s)
  unfolding receive_while_ok
  receive_while_ok-Ok zero s p = sound s p
  receive_while_ok-Ok (suc n) s p = elim (Bool-cases (poll_core h s).0) [
    | inr stop ↦ rw (stop, receive_while_ok, Ensures) (poll_core-Ok s p)
    | inl more ↦
        rw (more, receive_while_ok)
          (then-Ensures Stopped OkResult Ok (or_fault (receive_ack h (poll_core h s).1)) _
            (receive_ack-Steady h file fits roomy least _ (poll_core-Ok s p))
            (λ r p. next (λ s p. receive_while_ok-Ok n s p) r p))
  ]
    where
      next :
          ((s : SelectiveRepeatCcServer h) → Ok s → Ensures Stopped Ok (receive_while_ok h n s))
          → (r : Bool × SelectiveRepeatCcServer h) → Ok r.1
          → Ensures Stopped Ok (elim r.0 [ true ↦ receive_while_ok h n r.1 | false ↦ done r.1 ])
      next again (true, s) p = again s p
      next again (false, s) p = p

  pub wait-Ok :
      (rounds : ℕ) (s : SelectiveRepeatCcServer h) → Ok s → Ensures Stopped Ok (wait h rounds s)
  unfolding wait
  wait-Ok rounds s p =
      then-Ensures Stopped Ok Ok (receive_while_ok h rounds s) (timers_or_return h)
        (receive_while_ok-Ok rounds s p) timers_or_return-Ok
