-- ===== src/SelectiveRepeatCc/Server/Appending.antt =====
-- selectiveRepeatCCServer.cpp: sending the next packet.
use reliable_data_transfer.Base.{
  ℕ, ◌+◌, ◌*◌, ◌≤◌, ◌%◌, ◌^◌, true, List, [], ◌∷◌, ◌++◌, All, some, ◌≡◌, sym, ap, ◌∙◌, arith,
  length, if-both, ltb, if◌then◌else◌, u32, some_inj,
}
use reliable_data_transfer.Base.Maps.{insert}
use reliable_data_transfer.Packet.{create_core_packet}
use reliable_data_transfer.DataManagers.{DataFeeder, has_next, get_next_data_segment}
use reliable_data_transfer.DataManagers.Reading.{Reads, Reads-next}
use reliable_data_transfer.Socket.{Host, Net, time_now, transmit}
use reliable_data_transfer.Socket.Genuine.{Fits, IsSent, sent_packet, create-sent_packet}
use reliable_data_transfer.Socket.Wire.{IsOfTransfer, transmit-IsOfTransfer}
use reliable_data_transfer.Run.{returned, ◌then◌, or_fault, Ensures, then-Ensures, or_fault-Ensures}
use reliable_data_transfer.SelectiveRepeat.Server.Appending.{appended-InOrder}
use reliable_data_transfer.SelectiveRepeatCc.Server.{
  SelectiveRepeatCcServer, timers_or_return, after_sending, send_next, send_or_wait,
}
use reliable_data_transfer.SelectiveRepeatCc.Server.Order.{IsCcSound, IsSteady, Queued-insert}
use reliable_data_transfer.SelectiveRepeatCc.Server.Acknowledging.{Steady-Sound}
use reliable_data_transfer.SelectiveRepeatCc.Server.Sending.{
  timers_or_return-Ok, receive_all-Ok, wait-Ok,
}

length-insert_le :
    {V : Type 0} (k : ℕ) (v : V) (m : List (ℕ × V)) → length (insert k v m) ≤ length m + 1
unfolding insert
length-insert_le k v m = ground arith

module _ (h : Host) (file : List ℕ) (fits : Fits file) (roomy : length file + 2048 ≤ 512 * 2 ^ 32)
    (least : ℕ) where
  abbrev Fine : SelectiveRepeatCcServer h → Type 0
  Fine = IsSteady h file least

  abbrev Halted : SelectiveRepeatCcServer h → Type 0
  Halted = IsCcSound h file

  appended-Steady :
      (s : SelectiveRepeatCcServer h) (feeder : DataFeeder) (now : ℕ) (net : Net h)
      → Fine s
      → IsSent file s.core.seq_no
      → Reads file (s.core.seq_no + 1) feeder
      → All (IsOfTransfer file) net.sent
      → Fine (record s {
        core = record s.core {
          data_sent = insert s.core.seq_no (sent_packet file s.core.seq_no) s.core.data_sent;
          seqnums_sent = insert s.core.seq_no now s.core.seqnums_sent;
          send_order = s.core.send_order ++ s.core.seq_no ∷ [];
          seq_no = u32 (s.core.seq_no + 1);
          data_feeder = feeder;
          net = net;
        };
      })
  appended-Steady s feeder now net p sent reads wire =
      let no_wrap : (s.core.seq_no + 1) % 2 ^ 32 ≡ s.core.seq_no + 1 = omega arith in
      record {
        in_order =
            appended-InOrder h file fits (2 ^ 32) least s.core feeder now net p.in_order sent reads
              (omega arith) wire;
        queued = Queued-insert s.core.seq_no now s.core.seqnums_sent s.core.send_order p.queued;
        most = p.most;
        budget = omega (
          arith,
          no_wrap,
          p.budget,
          length-insert_le s.core.seq_no (sent_packet file s.core.seq_no) s.core.data_sent,
        );
        sane = p.sane;
      }

  sent_next-Steady :
      (rounds : ℕ) (s : SelectiveRepeatCcServer h) (feeder : DataFeeder)
      → Fine s
      → IsSent file s.core.seq_no
      → Reads file (s.core.seq_no + 1) feeder
      → Ensures Halted Fine (
          let (sent, net) = transmit h s.core.net (sent_packet file s.core.seq_no) in
          let s' = record s { core = record s.core { data_feeder = feeder; net = net } } in
          if sent then after_sending h rounds (sent_packet file s.core.seq_no) s' else returned s')
  unfolding after_sending time_now
  sent_next-Steady rounds s feeder p sent reads =
      let t = transmit h s.core.net (sent_packet file s.core.seq_no) in
      let wire = transmit-IsOfTransfer h file s.core.seq_no s.core.net sent p.in_order.wire in
      if-both (Ensures Halted Fine) t.0 _ _
        (λ _.
          then-Ensures Halted Fine Fine _ (timers_or_return h)
            (receive_all-Ok h file fits roomy least rounds _
              (appended-Steady s feeder (time_now h t.1).0 (time_now h t.1).1 p sent reads wire))
            (timers_or_return-Ok h file fits roomy least))
        (λ _.
          let q = Steady-Sound h file fits roomy least s p in
          record { low = q.low; open_window = q.open_window; bounded = q.bounded; wire = wire })

  send_next-Steady :
      (rounds : ℕ) (s : SelectiveRepeatCcServer h)
      → Fine s
      → has_next s.core.data_feeder ≡ true
      → Ensures Halted Fine (send_next h rounds s)
  unfolding send_next
  send_next-Steady rounds s p more =
      let (sent, e, reads) =
        Reads-next file s.core.seq_no s.core.data_feeder p.in_order.reads more in
      let segment = (get_next_data_segment s.core.data_feeder).1 in
      let built : create_core_packet segment s.core.seq_no ≡ some (sent_packet file s.core.seq_no) =
        ap (λ d. create_core_packet d s.core.seq_no) e ∙ create-sent_packet file s.core.seq_no in
      then-Ensures Halted (λ packet. packet ≡ sent_packet file s.core.seq_no) Fine
        (or_fault (create_core_packet segment s.core.seq_no)) _
        (or_fault-Ensures Halted _ _ (λ packet e'. some_inj (sym e' ∙ built)))
        (λ packet same. rw same (sent_next-Steady rounds s _ p sent reads))

  pub send_or_wait-Steady :
      (rounds : ℕ) (s : SelectiveRepeatCcServer h)
      → Fine s
      → has_next s.core.data_feeder ≡ true
      → Ensures Halted Fine (send_or_wait h rounds s)
  unfolding send_or_wait
  send_or_wait-Steady rounds s p more =
      if-both (Ensures Halted Fine) (ltb s.core.seq_no (u32 (s.core.base_seq_no + s.cong.window))) _
        _ (λ less. send_next-Steady rounds s p more)
        (λ _. wait-Ok h file fits roomy least rounds s p)
