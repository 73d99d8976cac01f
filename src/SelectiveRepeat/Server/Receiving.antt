-- ===== src/SelectiveRepeat/Server/Receiving.antt =====
-- SelectiveRepeatServer.cpp: what taking an acknowledgement keeps.
use reliable_data_transfer.Base.{
  ℕ, ◌+◌, ◌<◌, Bool, true, false, List, [], ◌∷◌, All, Option, none, some, ◌≡◌, refl, sym, subst,
  inl, inr, arith, Bool-cases, if-both, ltb, leb, if◌then◌else◌, u32, ◌>>=◌, ◌&&◌, Option-cases,
}
use reliable_data_transfer.Base.Maps.{lookup, has}
use native.Mathlib.Decide.{ℕ_discrete}
use reliable_data_transfer.Packet.{AckPacket, verify_checksum_ack}
use reliable_data_transfer.Socket.{
  Host, Net, time_now, may_receive, update_remaining_timeout_nc, receive_ack_from, timeout,
  receive_ack_packet,
}
use reliable_data_transfer.Socket.Genuine.{Fits}
use reliable_data_transfer.Socket.Wire.{IsOfTransfer, may_receive-sent}
use reliable_data_transfer.Run.{◌then◌, or_fault, Ensures, bind-Ensures, or_fault-Ensures}
use reliable_data_transfer.SelectiveRepeat.Server.{
  SelectiveRepeatServer, take_off_freed, acknowledge, sent_time, receive_ack_for, receive_ack,
}
use reliable_data_transfer.SelectiveRepeat.Server.Acks.{Below}
use reliable_data_transfer.SelectiveRepeat.Server.Order.{IsSound, InOrder, take_off_freed-InOrder}

module _ (h : Host) (file : List ℕ) (fits : Fits file) (window least : ℕ) where
  abbrev pub Sound : SelectiveRepeatServer h → Type 0
  Sound = IsSound h file window

  abbrev pub Good : SelectiveRepeatServer h → Type 0
  Good = InOrder h file window least

  abbrev pub GoodResult : Bool × SelectiveRepeatServer h → Type 0
  GoodResult r = Good r.1

  pub Good-Sound : (s : SelectiveRepeatServer h) → Good s → Sound s
  Good-Sound s p = record { low = p.low; in_window = p.in_window; wire = p.wire }

  -- Times that name the same packets, and other flags and a later network.
  pub with_times-Good :
      (s : SelectiveRepeatServer h) (times : List (ℕ × ℕ)) (error time_out : Bool) (net : Net h)
      → Good s
      → Below s.seq_no times
      → ((i : ℕ) → has (lookup i s.seqnums_sent) ≡ true → has (lookup i times) ≡ true)
      → All (IsOfTransfer file) net.sent
      → Good (record s { seqnums_sent = times; error = error; time_out = time_out; net = net })
  with_times-Good s times error time_out net p timed same wire = record {
    low = p.low;
    in_window = p.in_window;
    reached = p.reached;
    timed = timed;
    acked = p.acked;
    open_at = p.open_at;
    order = p.order;
    covers = λ i le lt. elim (p.covers i le lt) [
      | inl waits ↦ inl (same i waits)
      | inr there ↦ inr there
    ];
    stores = p.stores;
    reads = p.reads;
    wire = wire;
  }

  acknowledge-Good :
      (s : SelectiveRepeatServer h) (ack : AckPacket)
      → Good s
      → Ensures Sound GoodResult (or_fault (acknowledge h window s ack))
  unfolding acknowledge or_fault
  acknowledge-Good s ack p =
      if-both P s.time_out _ _ (λ _. p)
        (λ _.
          if-both P s.error _ _ (λ _. p)
            (λ _.
              if-both P
                (verify_checksum_ack ack
                  && leb s.base_seq_no ack.ackno
                  && ltb ack.ackno (u32 (s.base_seq_no + window)))
                (if has (lookup ack.ackno s.seqnums_sent) then taken else some (true, s))
                (some (false, s))
                (λ _.
                  if-both P (has (lookup ack.ackno s.seqnums_sent)) taken (some (true, s))
                    (λ waits.
                      bind-Ensures Sound Good GoodResult (take_off_freed h ack.ackno s) _
                        (take_off_freed-InOrder h file fits window least ack.ackno s p
                          (p.timed ack.ackno waits))
                        (λ s' p'. p'))
                    (λ _. p))
                (λ _. p)))
    where
      P : Option (Bool × SelectiveRepeatServer h) → Type 0
      P o = Ensures Sound GoodResult (or_fault o)

      taken : Option (Bool × SelectiveRepeatServer h)
      taken = take_off_freed h ack.ackno s >>= (λ s'. some (true, s'))

  -- `seqnums_sent[i]` at a number below the next one.
  pub sent_time_lem :
      (i seq : ℕ) (times : List (ℕ × ℕ))
      → i < seq
      → Below seq times
      → Below seq (sent_time i times).1
        × ((j : ℕ) → has (lookup j times) ≡ true → has (lookup j (sent_time i times).1) ≡ true)
  unfolding sent_time lookup
  sent_time_lem i seq times lt b = elim (Option-cases (lookup i times)) [
    | inr (t, there) ↦
        let e : sent_time i times ≡ (t, times) = rw (there, sent_time) refl in
        subst P (sym e) (b, λ j held. held)
    | inl missing ↦
        let e : sent_time i times ≡ (0, (i, 0) ∷ times) = rw (missing, sent_time) refl in
        subst P (sym e) (
          λ j held. elim (ℕ_discrete i j) [
            | yes same ↦ omega arith
            | no other ↦ b j (ground arith)
          ],
          λ j held. ground arith,
        )
  ]
    where
      P : ℕ × List (ℕ × ℕ) → Type 0
      P r = Below seq r.1 × ((j : ℕ) → has (lookup j times) ≡ true → has (lookup j r.1) ≡ true)

  pub receive_ack_from-wire :
      (net : Net h) (tv : ℕ)
      → All (IsOfTransfer file) net.sent
      → Ensures Sound
          (λ (c, net'). All (IsOfTransfer file) (Net.sent net'))
          (or_fault (receive_ack_from h net tv))
  unfolding receive_ack_from or_fault
  receive_ack_from-wire net tv wire =
      bind-Ensures Sound (λ c. Unit) _ (receive_ack_packet (Host.recvfrom h tv net.world).0) _
        (or_fault-Ensures Sound (λ c. Unit) _ (λ c e. tt)) (λ c u. wire)

  receive_ack_for-Good :
      (front : ℕ) (s : SelectiveRepeatServer h)
      → Good s
      → front < s.seq_no
      → Ensures Sound GoodResult (or_fault (receive_ack_for h window front s))
  unfolding receive_ack_for or_fault update_remaining_timeout_nc time_now
  receive_ack_for-Good front s p lt =
      let (timed, same) = sent_time_lem front s.seq_no s.seqnums_sent lt p.timed in
      let (send_time, times) = sent_time front s.seqnums_sent in
      let t = update_remaining_timeout_nc h timeout send_time s.net in
      let r = may_receive h t.over t.net in
      let wire : All (IsOfTransfer file) r.1.sent =
        subst (All (IsOfTransfer file)) (sym (may_receive-sent h t.over t.net)) p.wire in
      elim (Bool-cases r.0) [
        | inr nothing ↦
            rw (nothing, Ensures) (with_times-Good s times s.error s.time_out r.1 p timed same wire)
        | inl something ↦ rw something (
            bind-Ensures Sound (λ (c, net). All (IsOfTransfer file) (Net.sent net)) GoodResult
              (receive_ack_from h r.1 t.tv) _ (receive_ack_from-wire r.1 t.tv wire)
              (λ (c, net) wire'.
                acknowledge-Good _ c.packet
                  (with_times-Good s times c.error c.time_out net p timed same wire')))
      ]

  pub receive_ack-Good :
      (s : SelectiveRepeatServer h)
      → Good s
      → Ensures Sound GoodResult (or_fault (receive_ack h window s))
  unfolding receive_ack or_fault
  receive_ack-Good s p = from_front s.send_order p.order
    where
      from_front :
          (order : List ℕ)
          → All (λ i. i < s.seq_no) order
          → Ensures Sound GoodResult (
              or_fault
                (elim order [ [] ↦ none | front ∷ later ↦ receive_ack_for h window front s ]))
      from_front [] a = tt
      from_front (front ∷ later) (lt, a) = receive_ack_for-Good front s p lt
