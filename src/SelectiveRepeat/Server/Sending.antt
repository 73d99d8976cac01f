-- ===== src/SelectiveRepeat/Server/Sending.antt =====
-- SelectiveRepeatServer.cpp: what sending packets again keeps, and waiting.
use reliable_data_transfer.Base.{
  ℕ, zero, suc, ◌<◌, Bool, true, false, List, [], ◌∷◌, ◌++◌, some, ◌≡◌, ap, ◌∙◌, inl, inr, arith,
  Bool-cases, if-both, Option-cases,
}
use reliable_data_transfer.Base.Maps.{lookup, has, assign, has-lookup-assign}
use native.Mathlib.Decide.{ℕ_discrete}
use reliable_data_transfer.Socket.{
  Host, time_now, has_data, transmit, update_remaining_timeout_nc, timeout,
}
use reliable_data_transfer.Socket.Genuine.{Fits, IsSent, sent_packet, sent_packet-IsSentPacket}
use reliable_data_transfer.Socket.Wire.{transmit-IsOfTransfer, All-append}
use reliable_data_transfer.Run.{returned, done, or_fault, Ensures, then-Ensures, repeat-Ensures}
use reliable_data_transfer.SelectiveRepeat.Server.{
  remove, SelectiveRepeatServer, receive_ack, resend, update_timers_from, update_timers, poll,
  receive_all, receive_while_ok, timers_or_return, wait,
}
use reliable_data_transfer.SelectiveRepeat.Server.Order.{IsSound, InOrder, remove-All}
use reliable_data_transfer.SelectiveRepeat.Server.Receiving.{
  Good-Sound, with_times-Good, receive_ack-Good,
}

module _ (h : Host) (file : List ℕ) (fits : Fits file) (window least : ℕ) where
  abbrev Ok : SelectiveRepeatServer h → Type 0
  Ok = InOrder h file window least

  abbrev Stopped : SelectiveRepeatServer h → Type 0
  Stopped = IsSound h file window

  abbrev OkResult : Bool × SelectiveRepeatServer h → Type 0
  OkResult r = Ok r.1

  pub resend-Ok :
      (i : ℕ) (s : SelectiveRepeatServer h)
      → Ok s
      → IsSent file i
      → i < s.seq_no
      → Ok (resend h i (sent_packet file i) s).1
  unfolding resend time_now
  resend-Ok i s p sent lt =
      let t = transmit h s.net (sent_packet file i) in
      let wire = transmit-IsOfTransfer h file i s.net sent p.wire in
      let number : (sent_packet file i).seqno ≡ i = (sent_packet-IsSentPacket file i).number in
      let again : SelectiveRepeatServer h = record s {
        seqnums_sent = assign i (time_now h t.1).0 s.seqnums_sent;
        send_order = remove i s.send_order ++ (sent_packet file i).seqno ∷ [];
        net = (time_now h t.1).1;
      } in
      if-both {A = Bool × SelectiveRepeatServer h} OkResult t.0 (true, again)
        (false, record s { net = t.1 })
        (λ _. record {
          low = p.low;
          in_window = p.in_window;
          reached = p.reached;
          timed = λ j held. elim (ℕ_discrete i j) [
            | yes same ↦ omega arith
            | no other ↦
                p.timed j (ground (arith, has-lookup-assign i j (time_now h t.1).0 s.seqnums_sent))
          ];
          acked = p.acked;
          open_at = p.open_at;
          order =
              All-append (λ j. j < s.seq_no) (remove i s.send_order) _
                (remove-All (λ j. j < s.seq_no) i s.send_order p.order) (omega arith);
          covers = λ j le below. elim (p.covers j le below) [
            | inl waits ↦
                inl (ground (arith, has-lookup-assign i j (time_now h t.1).0 s.seqnums_sent))
            | inr there ↦ inr there
          ];
          stores = p.stores;
          reads = p.reads;
          wire = wire;
        })
        (λ _.
          with_times-Good h file fits window least s s.seqnums_sent s.error s.time_out t.1 p p.timed
            (λ j held. held) wire)

  update_timers_from-Ok :
      (order : List ℕ) (s : SelectiveRepeatServer h)
      → Ok s
      → Ensures Stopped OkResult (or_fault (update_timers_from h order s))
  unfolding update_timers_from or_fault update_remaining_timeout_nc time_now
  update_timers_from-Ok [] s p = p
  update_timers_from-Ok (i ∷ order) s p = elim (Option-cases (lookup i s.seqnums_sent)) [
    | inl missing ↦ rw (missing, update_timers_from) tt
    | inr (send_time, there) ↦
        let t = update_remaining_timeout_nc h timeout send_time s.net in
        let s1 : SelectiveRepeatServer h = record s { net = t.net } in
        let p1 : Ok s1 =
          with_times-Good h file fits window least s s.seqnums_sent s.error s.time_out t.net p
            p.timed (λ j held. held) p.wire in
        elim (Bool-cases t.over) [
          | inr in_time ↦ rw (there, in_time, update_timers_from) p1
          | inl over ↦ elim (Option-cases (lookup i s.data_sent)) [
            | inl missing ↦ rw (there, over, missing, update_timers_from) tt
            | inr (packet, kept) ↦
                let (same, sent) = p.stores i packet kept in
                let ours : lookup i s.data_sent ≡ some (sent_packet file i) = kept ∙ ap some same in
                let lt : i < s.seq_no = p.timed i (ap has there) in
                let p2 = resend-Ok i s1 p1 sent lt in
                rw (there, over, ours, update_timers_from)
                  (further (λ s p. update_timers_from-Ok order s p)
                    (resend h i (sent_packet file i) s1) p2)
          ]
        ]
  ]
    where
      further :
          ((s : SelectiveRepeatServer h)
            → Ok s
            → Ensures Stopped OkResult (or_fault (update_timers_from h order s)))
          → (r : Bool × SelectiveRepeatServer h) → Ok r.1
          → Ensures Stopped OkResult (
              or_fault
                (elim r.0 [ true ↦ update_timers_from h order r.1 | false ↦ some (false, r.1) ]))
      further later (true, s) p = later s p
      further later (false, s) p = p

  pub timers_or_return-Ok :
      (s : SelectiveRepeatServer h) → Ok s → Ensures Stopped Ok (timers_or_return h s)
  unfolding timers_or_return update_timers
  timers_or_return-Ok s p =
      then-Ensures Stopped OkResult Ok (or_fault (update_timers h s)) _
        (update_timers_from-Ok s.send_order s p)
        (λ (ok, s) p.
          if-both (Ensures Stopped Ok) ok (done s) (returned s) (λ _. p)
            (λ _. Good-Sound h file fits window least s p))

  pub poll-Ok : (s : SelectiveRepeatServer h) → Ok s → Ok (poll h s).1
  unfolding poll has_data
  poll-Ok s p =
      with_times-Good h file fits window least s s.seqnums_sent s.error s.time_out _ p p.timed
        (λ j held. held) p.wire

  pub receive_all-Ok :
      (rounds : ℕ) (s : SelectiveRepeatServer h)
      → Ok s
      → Ensures Stopped Ok (receive_all h rounds window s)
  unfolding receive_all
  receive_all-Ok rounds s p =
      repeat-Ensures Stopped (poll h) _ Ok Ok (Good-Sound h file fits window least)
        (λ s p more.
          then-Ensures Stopped OkResult Ok (or_fault (receive_ack h window (poll h s).1)) _
            (receive_ack-Good h file fits window least _ (poll-Ok s p)) (λ (ok, s) p. p))
        (λ s p stop. poll-Ok s p) rounds s p

  receive_while_ok-Ok :
      (rounds : ℕ) (s : SelectiveRepeatServer h)
      → Ok s
      → Ensures Stopped Ok (receive_while_ok h rounds window s)
  unfolding receive_while_ok
  receive_while_ok-Ok zero s p = Good-Sound h file fits window least s p
  receive_while_ok-Ok (suc n) s p = elim (Bool-cases (poll h s).0) [
    | inr stop ↦ rw (stop, receive_while_ok, Ensures) (poll-Ok s p)
    | inl more ↦
        rw (more, receive_while_ok)
          (then-Ensures Stopped OkResult Ok (or_fault (receive_ack h window (poll h s).1)) _
            (receive_ack-Good h file fits window least _ (poll-Ok s p))
            (λ r p. next (λ s p. receive_while_ok-Ok n s p) r p))
  ]
    where
      next :
          ((s : SelectiveRepeatServer h)
            → Ok s
            → Ensures Stopped Ok (receive_while_ok h n window s))
          → (r : Bool × SelectiveRepeatServer h) → Ok r.1
          → Ensures Stopped Ok
              (elim r.0 [ true ↦ receive_while_ok h n window r.1 | false ↦ done r.1 ])
      next again (true, s) p = again s p
      next again (false, s) p = p

  pub wait-Ok :
      (rounds : ℕ) (s : SelectiveRepeatServer h)
      → Ok s
      → Ensures Stopped Ok (wait h rounds window s)
  unfolding wait
  wait-Ok rounds s p =
      then-Ensures Stopped Ok Ok (receive_while_ok h rounds window s) (timers_or_return h)
        (receive_while_ok-Ok rounds s p) timers_or_return-Ok
