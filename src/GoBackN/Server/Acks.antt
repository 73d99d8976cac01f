-- ===== src/GoBackN/Server/Acks.antt =====
-- GoBackServer.cpp: what acknowledgements do to the worker.
use reliable_data_transfer.Base.{
  ℕ, ◌+◌, ◌-◌, ◌≤◌, Bool, true, List, All, Option, some, ◌≡◌, refl, sym, subst, inl, inr, arith,
  Bool-cases, if-both, ltb, leb, if◌then◌else◌, u32, ◌>>=◌, ◌&&◌,
}
use native.Mathlib.Decide.{dec_lt}
use reliable_data_transfer.Packet.{AckPacket, verify_checksum_ack}
use reliable_data_transfer.DataManagers.Reading.{Reads}
use reliable_data_transfer.Socket.{
  Host, Net, time_now, may_receive, update_remaining_timeout_nc, receive_ack_from, timeout,
  receive_ack_packet,
}
use reliable_data_transfer.Socket.Genuine.{Fits}
use reliable_data_transfer.Socket.Wire.{IsOfTransfer, may_receive-sent}
use reliable_data_transfer.Run.{◌then◌, or_fault, Ensures, bind-Ensures, or_fault-Ensures}
use reliable_data_transfer.GoBackN.Server.{
  GoBackServer, slide, is_empty, restart_timer, acknowledge, receive_ack,
}
use reliable_data_transfer.GoBackN.Server.Window.{packets, slide_within, slide_beyond}

module _ (h : Host) (file : List ℕ) (fits : Fits file) (window least : ℕ) where
  -- The packets that are out are those from the base to the next number, no more than the window,
  -- the next number is `least` or more, the feeder is at it, and all that went out belongs to the transfer.
  pub record InOrder (s : GoBackServer h) : Type 0 where
    pub count : ℕ
    pub unacked : s.unacked_packet ≡ packets file s.base_seq_no count
    pub numbers : s.base_seq_no + count ≡ s.seq_no
    pub in_window : count ≤ window
    pub reached : least ≤ s.seq_no
    pub reads : Reads file s.seq_no s.data_feeder
    pub wire : All (IsOfTransfer file) s.net.sent

  pub restart_timer-InOrder : (s : GoBackServer h) → InOrder s → InOrder (restart_timer h s)
  unfolding restart_timer time_now
  restart_timer-InOrder s p = record {
    count = p.count;
    unacked = p.unacked;
    numbers = p.numbers;
    in_window = p.in_window;
    reached = p.reached;
    reads = p.reads;
    wire = p.wire;
  }

  pub sent-InOrder :
      (s : GoBackServer h) (error time_out : Bool) (net : Net h)
      → InOrder s
      → All (IsOfTransfer file) net.sent
      → InOrder (record s { error = error; time_out = time_out; net = net })
  sent-InOrder s error time_out net p wire = record {
    count = p.count;
    unacked = p.unacked;
    numbers = p.numbers;
    in_window = p.in_window;
    reached = p.reached;
    reads = p.reads;
    wire = wire;
  }

  -- Acknowledging leaves the packets in order.
  slid-InOrder :
      (s : GoBackServer h) (ackno : ℕ)
      → InOrder s
      → s.base_seq_no ≤ ackno + 1
      → Ensures {S = GoBackServer h} InOrder
          (λ (base, unacked). InOrder (record s { base_seq_no = base; unacked_packet = unacked }))
          (or_fault (slide ackno s.base_seq_no s.unacked_packet))
  unfolding or_fault
  slid-InOrder s ackno p le = elim (dec_lt ackno s.seq_no) [
    | yes in_it ↦
        let e =
          slide_within file ackno s.base_seq_no p.count (s.seq_no - (ackno + 1)) le
            (omega (arith, p.numbers)) (omega (arith, p.numbers, p.reads.most)) in
        rw (p.unacked, e, Ensures)
          (record {
            count = s.seq_no - (ackno + 1);
            unacked = refl;
            numbers = omega arith;
            in_window = omega (arith, p.numbers, p.in_window);
            reached = p.reached;
            reads = p.reads;
            wire = p.wire;
          })
    | no beyond ↦
        let e =
          slide_beyond file ackno s.base_seq_no p.count (omega (arith, p.numbers))
            (omega (arith, p.numbers, p.reads.most)) in
        rw (p.unacked, e, Ensures) tt
  ]

  abbrev pub AckResult : Bool × GoBackServer h → Type 0
  AckResult r = InOrder r.1

  acknowledge-InOrder :
      (s : GoBackServer h) (ack : AckPacket)
      → InOrder s
      → Ensures InOrder AckResult (or_fault (acknowledge h window s ack))
  unfolding acknowledge or_fault
  acknowledge-InOrder s ack p =
      if-both P s.time_out _ _ (λ _. p)
        (λ _. if-both P s.error _ _ (λ _. p) (λ _. if-both P _ _ _ taken (λ _. p)))
    where
      P : Option (Bool × GoBackServer h) → Type 0
      P o = Ensures InOrder AckResult (or_fault o)

      taken :
          (verify_checksum_ack ack
              && leb s.base_seq_no ack.ackno
              && ltb ack.ackno (u32 (s.base_seq_no + window)))
            ≡ true
          → P (
              slide ack.ackno s.base_seq_no s.unacked_packet >>= (λ (base, unacked).
                let s' = record s { base_seq_no = base; unacked_packet = unacked } in
                some (true, if is_empty unacked then s' else restart_timer h s')))
      taken accepted =
          bind-Ensures InOrder
            (λ (base, unacked). InOrder (record s { base_seq_no = base; unacked_packet = unacked }))
            AckResult (slide ack.ackno s.base_seq_no s.unacked_packet) _
            (slid-InOrder s ack.ackno p (ground arith))
            (λ (base, unacked) p'.
              if-both InOrder (is_empty unacked) _ _ (λ _. p') (λ _. restart_timer-InOrder _ p'))

  receive_ack_from-wire :
      (net : Net h) (tv : ℕ)
      → All (IsOfTransfer file) net.sent
      → Ensures InOrder
          (λ (c, net). All (IsOfTransfer file) (Net.sent net))
          (or_fault (receive_ack_from h net tv))
  unfolding receive_ack_from or_fault
  receive_ack_from-wire net tv wire =
      bind-Ensures InOrder (λ c. Unit) _ (receive_ack_packet (Host.recvfrom h tv net.world).0) _
        (or_fault-Ensures InOrder (λ c. Unit) _ (λ c e. tt)) (λ c u. wire)

  pub receive_ack-InOrder :
      (s : GoBackServer h)
      → InOrder s
      → Ensures InOrder AckResult (or_fault (receive_ack h window s))
  unfolding receive_ack or_fault update_remaining_timeout_nc time_now
  receive_ack-InOrder s p =
      let t = update_remaining_timeout_nc h timeout s.send_time s.net in
      let r = may_receive h t.over t.net in
      let wire : All (IsOfTransfer file) r.1.sent =
        subst (All (IsOfTransfer file)) (sym (may_receive-sent h t.over t.net)) p.wire in
      elim (Bool-cases r.0) [
        | inr nothing ↦ rw (nothing, Ensures) (sent-InOrder s s.error s.time_out r.1 p wire)
        | inl something ↦ rw something (
            bind-Ensures InOrder (λ (c, net). All (IsOfTransfer file) (Net.sent net)) AckResult
              (receive_ack_from h r.1 t.tv) _ (receive_ack_from-wire r.1 t.tv wire)
              (λ (c, net) wire'.
                acknowledge-InOrder _ c.packet (sent-InOrder s c.error c.time_out net p wire')))
      ]
