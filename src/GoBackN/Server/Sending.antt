-- ===== src/GoBackN/Server/Sending.antt =====
-- GoBackServer.cpp: sending the next packet.
use reliable_data_transfer.Base.{
  ℕ, suc, ◌+◌, ◌≤◌, ◌<◌, ◌%◌, ◌^◌, true, List, [], ◌∷◌, ◌++◌, All, some, ◌≡◌, refl, sym, ap, subst,
  ◌∙◌, arith, if-both, ltb, if◌then◌else◌, u32, some_inj,
}
use reliable_data_transfer.Packet.{create_core_packet}
use reliable_data_transfer.DataManagers.{DataFeeder, has_next, get_next_data_segment}
use reliable_data_transfer.DataManagers.Reading.{Reads, Reads-next}
use reliable_data_transfer.Socket.{Host, time_now, transmit}
use reliable_data_transfer.Socket.Genuine.{Fits, IsSent, sent_packet, create-sent_packet}
use reliable_data_transfer.Socket.Wire.{IsOfTransfer, transmit-IsOfTransfer}
use reliable_data_transfer.Run.{
  returned, done, ◌then◌, or_fault, Ensures, then-Ensures, Ensures-weaken, or_fault-Ensures,
}
use reliable_data_transfer.GoBackN.Server.{
  GoBackServer, is_empty, restart_timer, update_timer, receive_all, after_sending, send_next,
  send_or_wait,
}
use reliable_data_transfer.GoBackN.Server.Window.{IsSound, packets, packets_snoc}
use reliable_data_transfer.GoBackN.Server.Acks.{InOrder}
use reliable_data_transfer.GoBackN.Server.Waiting.{
  InOrder-Sound, update_timer-InOrder, receive_all-InOrder, wait-InOrder,
}

module _ (h : Host) (file : List ℕ) (fits : Fits file) (window least : ℕ) where
  abbrev Sound : GoBackServer h → Type 0
  Sound = IsSound h file window

  abbrev Good : GoBackServer h → Type 0
  Good = InOrder h file fits window least

  -- The next packet has been built, and there is room for it.
  record Ready (s : GoBackServer h) : Type 0 where
    count : ℕ
    unacked : s.unacked_packet ≡ packets file s.base_seq_no count
    numbers : s.base_seq_no + count ≡ s.seq_no
    room : count < window
    sent : IsSent file s.seq_no
    reached : least ≤ s.seq_no
    reads : Reads file (s.seq_no + 1) s.data_feeder
    wire : All (IsOfTransfer file) s.net.sent

  restart_timer-Ready : (s : GoBackServer h) → Ready s → Ready (restart_timer h s)
  unfolding restart_timer time_now
  restart_timer-Ready s p = record {
    count = p.count;
    unacked = p.unacked;
    numbers = p.numbers;
    room = p.room;
    sent = p.sent;
    reached = p.reached;
    reads = p.reads;
    wire = p.wire;
  }

  appended-InOrder :
      (s : GoBackServer h) (i : ℕ)
      → s.seq_no ≡ i
      → Ready s
      → Good (record s {
        seq_no = u32 (s.seq_no + 1);
        unacked_packet = s.unacked_packet ++ sent_packet file i ∷ [];
      })
  appended-InOrder s i e p =
      let no_wrap : s.seq_no + 1 ≡ (s.seq_no + 1) % 2 ^ 32 = omega (arith, p.sent) in
      record {
        count = suc p.count;
        unacked =
            ap (λ ps. ps ++ sent_packet file i ∷ []) p.unacked
            ∙ packets_snoc file s.base_seq_no p.count i (p.numbers ∙ e);
        numbers = omega (arith, no_wrap, p.numbers);
        in_window = p.room;
        reached = omega (arith, no_wrap, p.reached);
        reads = subst (λ i. Reads file i s.data_feeder) no_wrap p.reads;
        wire = p.wire;
      }

  after_sending-InOrder :
      (rounds : ℕ) (s : GoBackServer h)
      → Ready s
      → Ensures Good Good (after_sending h rounds window (sent_packet file s.seq_no) s)
  unfolding after_sending restart_timer
  after_sending-InOrder rounds s p =
      let s1 : GoBackServer h = if is_empty s.unacked_packet then restart_timer h s else s in
      let start : Ready s1 × (s1.seq_no ≡ s.seq_no) =
        if-both (λ s'. Ready s' × (s'.seq_no ≡ s.seq_no)) (is_empty s.unacked_packet) _ _
          (λ _. (restart_timer-Ready s p, refl)) (λ _. (p, refl)) in
      then-Ensures Good Good Good
        (receive_all h rounds window (record s1 {
          seq_no = u32 (s1.seq_no + 1);
          unacked_packet = s1.unacked_packet ++ sent_packet file s.seq_no ∷ [];
        }))
        (λ s. done (update_timer h s).1)
        (receive_all-InOrder h file fits window least rounds _
          (appended-InOrder s1 s.seq_no start.1 start.0))
        (λ s p. update_timer-InOrder h file fits window least s p)

  sent_next-InOrder :
      (rounds : ℕ) (s : GoBackServer h) (feeder : DataFeeder)
      → Good s
      → IsSent file s.seq_no
      → Reads file (s.seq_no + 1) feeder
      → s.seq_no < s.base_seq_no + window
      → Ensures Sound Good (
          let (sent, net) = transmit h s.net (sent_packet file s.seq_no) in
          let s' = record s { data_feeder = feeder; net = net } in
          if sent
          then after_sending h rounds window (sent_packet file s.seq_no) s'
          else returned s')
  sent_next-InOrder rounds s feeder p sent reads room =
      let t = transmit h s.net (sent_packet file s.seq_no) in
      let ready : Ready (record s { data_feeder = feeder; net = t.1 }) = record {
        count = p.count;
        unacked = p.unacked;
        numbers = p.numbers;
        room = omega (arith, p.numbers);
        sent = sent;
        reached = p.reached;
        reads = reads;
        wire = transmit-IsOfTransfer h file s.seq_no s.net sent p.wire;
      } in
      if-both (Ensures Sound Good) t.0 _ _
        (λ _.
          Ensures-weaken Sound Good Good _ (InOrder-Sound h file fits window least)
            (after_sending-InOrder rounds _ ready))
        (λ _. record {
          count = p.count;
          unacked = p.unacked;
          numbers = p.numbers;
          in_window = p.in_window;
          wire = ready.wire;
        })

  send_next-InOrder :
      (rounds : ℕ) (s : GoBackServer h)
      → Good s
      → has_next s.data_feeder ≡ true
      → s.seq_no < s.base_seq_no + window
      → Ensures Sound Good (send_next h rounds window s)
  unfolding send_next
  send_next-InOrder rounds s p more room =
      let (sent, e, reads) = Reads-next file s.seq_no s.data_feeder p.reads more in
      let built : create_core_packet (get_next_data_segment s.data_feeder).1 s.seq_no
          ≡ some (sent_packet file s.seq_no) =
        ap (λ d. create_core_packet d s.seq_no) e ∙ create-sent_packet file s.seq_no in
      then-Ensures Sound (λ packet. packet ≡ sent_packet file s.seq_no) Good
        (or_fault (create_core_packet (get_next_data_segment s.data_feeder).1 s.seq_no)) _
        (or_fault-Ensures Sound _ _ (λ packet e'. some_inj (sym e' ∙ built)))
        (λ packet same. rw same (sent_next-InOrder rounds s _ p sent reads room))

  pub send_or_wait-InOrder :
      (rounds : ℕ) (s : GoBackServer h)
      → Good s
      → has_next s.data_feeder ≡ true
      → Ensures Sound Good (send_or_wait h rounds window s)
  unfolding send_or_wait
  send_or_wait-InOrder rounds s p more =
      if-both (Ensures Sound Good) (ltb s.seq_no (u32 (s.base_seq_no + window))) _ _
        (λ less. send_next-InOrder rounds s p more (ground arith))
        (λ _.
          Ensures-weaken Sound Good Good _ (InOrder-Sound h file fits window least)
            (wait-InOrder h file fits window least rounds s p))
