-- ===== src/SelectiveRepeat/Server/Appending.antt =====
-- SelectiveRepeatServer.cpp: sending the next packet.
use reliable_data_transfer.Base.{
  ℕ, ◌+◌, ◌≤◌, ◌<◌, ◌%◌, ◌^◌, Bool, true, List, [], ◌∷◌, ◌++◌, All, some, ◌≡◌, sym, ap, subst, ◌∙◌,
  inl, inr, arith, if-both, ltb, if◌then◌else◌, u32, some_inj, eq→==, Option-cases,
}
use reliable_data_transfer.Base.Maps.{
  lookup, insert, lookup-insert, has-lookup-insert, insert_present,
}
use native.Mathlib.Decide.{ℕ_discrete}
use reliable_data_transfer.Packet.{Packet, create_core_packet}
use reliable_data_transfer.DataManagers.{DataFeeder, has_next, get_next_data_segment}
use reliable_data_transfer.DataManagers.Reading.{Reads, Reads-next}
use reliable_data_transfer.Socket.{Host, Net, time_now, transmit}
use reliable_data_transfer.Socket.Genuine.{Fits, IsSent, sent_packet, create-sent_packet}
use reliable_data_transfer.Socket.Wire.{IsOfTransfer, transmit-IsOfTransfer, All-append}
use reliable_data_transfer.Run.{returned, ◌then◌, or_fault, Ensures, then-Ensures, or_fault-Ensures}
use reliable_data_transfer.SelectiveRepeat.Server.{
  SelectiveRepeatServer, timers_or_return, after_sending, send_next, send_or_wait,
}
use reliable_data_transfer.SelectiveRepeat.Server.Order.{Stores, IsSound, InOrder}
use reliable_data_transfer.SelectiveRepeat.Server.Sending.{
  timers_or_return-Ok, receive_all-Ok, wait-Ok,
}

All-mono : (a b : ℕ) (xs : List ℕ) → a ≤ b → All (λ i. i < a) xs → All (λ i. i < b) xs
All-mono a b [] le all = tt
All-mono a b (x ∷ xs) le (p, all) = (omega arith, All-mono a b xs le all)

Stores-insert :
    (file : List ℕ) (k : ℕ) (m : List (ℕ × Packet))
    → IsSent file k
    → Stores file m
    → Stores file (insert k (sent_packet file k) m)
Stores-insert file k m sent stores i q e = elim (Option-cases (lookup k m)) [
  | inr (old, there) ↦
      stores i q (ap (lookup i) (sym (insert_present k old (sent_packet file k) m there)) ∙ e)
  | inl missing ↦ elim (ℕ_discrete k i) [
    | yes same ↦
        let found : lookup i (insert k (sent_packet file k) m) ≡ some (sent_packet file k) =
          lookup-insert k i (sent_packet file k) m missing
          ∙ ap (λ (c : Bool). if c then some (sent_packet file k) else lookup i m)
              (eq→== k i same) in
        subst (λ j. (q ≡ sent_packet file j) × IsSent file j) same (some_inj (sym e ∙ found), sent)
    | no other ↦ stores i q (ground (arith, lookup-insert k i (sent_packet file k) m missing))
  ]
]

module _ (h : Host) (file : List ℕ) (fits : Fits file) (window least : ℕ) where
  abbrev Fine : SelectiveRepeatServer h → Type 0
  Fine = InOrder h file window least

  abbrev Halted : SelectiveRepeatServer h → Type 0
  Halted = IsSound h file window

  -- Writing the packet with the next number down.
  pub appended-InOrder :
      (s : SelectiveRepeatServer h) (feeder : DataFeeder) (now : ℕ) (net : Net h)
      → Fine s
      → IsSent file s.seq_no
      → Reads file (s.seq_no + 1) feeder
      → s.seq_no < s.base_seq_no + window
      → All (IsOfTransfer file) net.sent
      → Fine (record s {
        data_sent = insert s.seq_no (sent_packet file s.seq_no) s.data_sent;
        seqnums_sent = insert s.seq_no now s.seqnums_sent;
        send_order = s.send_order ++ s.seq_no ∷ [];
        seq_no = u32 (s.seq_no + 1);
        data_feeder = feeder;
        net = net;
      })
  appended-InOrder s feeder now net p sent reads room wire =
      let no_wrap : (s.seq_no + 1) % 2 ^ 32 ≡ s.seq_no + 1 = omega arith in
      record {
        low = omega (arith, no_wrap, p.low);
        in_window = omega (arith, no_wrap);
        reached = omega (arith, no_wrap, p.reached);
        timed = λ i held. elim (ℕ_discrete s.seq_no i) [
          | yes same ↦ omega (arith, no_wrap)
          | no other ↦
              let before : i < s.seq_no =
                p.timed i (ground (arith, has-lookup-insert s.seq_no i now s.seqnums_sent)) in
              omega (arith, no_wrap)
        ];
        acked = λ i held. let before = p.acked i held in omega (arith, no_wrap, before);
        open_at = p.open_at;
        order =
            All-append (λ i. i < (s.seq_no + 1) % 2 ^ 32) s.send_order s.seq_no
              (All-mono s.seq_no _ s.send_order (omega (arith, no_wrap)) p.order)
              (omega (arith, no_wrap));
        covers = λ i le lt. elim (ℕ_discrete s.seq_no i) [
          | yes same ↦ inl (ground (arith, has-lookup-insert s.seq_no i now s.seqnums_sent))
          | no other ↦ elim (p.covers i le (omega (arith, no_wrap))) [
            | inl waits ↦ inl (ground (arith, has-lookup-insert s.seq_no i now s.seqnums_sent))
            | inr there ↦ inr there
          ]
        ];
        stores = Stores-insert file s.seq_no s.data_sent sent p.stores;
        reads = subst (λ i. Reads file i feeder) (sym no_wrap) reads;
        wire = wire;
      }

  sent_next-InOrder :
      (rounds : ℕ) (s : SelectiveRepeatServer h) (feeder : DataFeeder)
      → Fine s
      → IsSent file s.seq_no
      → Reads file (s.seq_no + 1) feeder
      → s.seq_no < s.base_seq_no + window
      → Ensures Halted Fine (
          let (sent, net) = transmit h s.net (sent_packet file s.seq_no) in
          let s' = record s { data_feeder = feeder; net = net } in
          if sent
          then after_sending h rounds window (sent_packet file s.seq_no) s'
          else returned s')
  unfolding after_sending time_now
  sent_next-InOrder rounds s feeder p sent reads room =
      let t = transmit h s.net (sent_packet file s.seq_no) in
      let wire = transmit-IsOfTransfer h file s.seq_no s.net sent p.wire in
      if-both (Ensures Halted Fine) t.0 _ _
        (λ _.
          then-Ensures Halted Fine Fine _ (timers_or_return h)
            (receive_all-Ok h file fits window least rounds _ (
              appended-InOrder s feeder (time_now h t.1).0 (time_now h t.1).1 p sent reads room
                wire))
            (timers_or_return-Ok h file fits window least))
        (λ _. record { low = p.low; in_window = p.in_window; wire = wire })

  send_next-InOrder :
      (rounds : ℕ) (s : SelectiveRepeatServer h)
      → Fine s
      → has_next s.data_feeder ≡ true
      → s.seq_no < s.base_seq_no + window
      → Ensures Halted Fine (send_next h rounds window s)
  unfolding send_next
  send_next-InOrder rounds s p more room =
      let (sent, e, reads) = Reads-next file s.seq_no s.data_feeder p.reads more in
      let segment = (get_next_data_segment s.data_feeder).1 in
      let built : create_core_packet segment s.seq_no ≡ some (sent_packet file s.seq_no) =
        ap (λ d. create_core_packet d s.seq_no) e ∙ create-sent_packet file s.seq_no in
      then-Ensures Halted (λ packet. packet ≡ sent_packet file s.seq_no) Fine
        (or_fault (create_core_packet segment s.seq_no)) _
        (or_fault-Ensures Halted _ _ (λ packet e'. some_inj (sym e' ∙ built)))
        (λ packet same. rw same (sent_next-InOrder rounds s _ p sent reads room))

  pub send_or_wait-InOrder :
      (rounds : ℕ) (s : SelectiveRepeatServer h)
      → Fine s
      → has_next s.data_feeder ≡ true
      → Ensures Halted Fine (send_or_wait h rounds window s)
  unfolding send_or_wait
  send_or_wait-InOrder rounds s p more =
      if-both (Ensures Halted Fine) (ltb s.seq_no (u32 (s.base_seq_no + window))) _ _
        (λ less. send_next-InOrder rounds s p more (ground arith))
        (λ _. wait-Ok h file fits window least rounds s p)
