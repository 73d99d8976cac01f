-- ===== src/GoBackN/Server/Acknowledging.antt =====
-- GoBackServer.cpp: `receive_ack` behind the reception, case by case.
use reliable_data_transfer.Base.{
  ℕ, ◌+◌, ◌-◌, ◌≤◌, ◌<◌, ◌^◌, true, false, List, none, some, ◌≡◌, refl, arith, if-both, ltb, leb,
  if◌then◌else◌, u32, ◌&&◌,
}
use reliable_data_transfer.Packet.{AckPacket, verify_checksum_ack}
use reliable_data_transfer.Socket.{Host}
use reliable_data_transfer.Run.{◌then◌}
use reliable_data_transfer.GoBackN.Server.{GoBackServer, is_empty, restart_timer, acknowledge}
use reliable_data_transfer.GoBackN.Server.Window.{IsSound, packets, slide_within, slide_beyond}

-- Nothing kept the acknowledgement from being read, and its checksum is right.
pub record IsRead {h : Host} (s : GoBackServer h) (ack : AckPacket) : Type 0 where
  pub in_time : s.time_out ≡ false
  pub fine : s.error ≡ false
  pub verified : verify_checksum_ack ack ≡ true

module _ (h : Host) (file : List ℕ) (window : ℕ) (s : GoBackServer h) (ack : AckPacket) where
  -- An acknowledgement of a packet that is out takes it and all before it off the window.
  pub acknowledge_within :
      IsSound h file window s
      → IsRead s ack
      → s.base_seq_no + window < 2 ^ 32
      → s.base_seq_no ≤ ack.ackno
      → ack.ackno < s.seq_no
      → (s' : GoBackServer h) × (acknowledge h window s ack ≡ some (true, s'))
        × (s'.base_seq_no ≡ ack.ackno + 1)
        × (s'.unacked_packet ≡ packets file (ack.ackno + 1) (s.seq_no - (ack.ackno + 1)))
        × (s'.seq_no ≡ s.seq_no)
  unfolding acknowledge restart_timer
  acknowledge_within p r small low high =
      let accepted : (verify_checksum_ack ack
            && leb s.base_seq_no ack.ackno
            && ltb ack.ackno (u32 (s.base_seq_no + window)))
          ≡ true =
        ground (arith, r.verified, p.numbers, p.in_window) in
      let slid =
        slide_within file ack.ackno s.base_seq_no p.count (s.seq_no - (ack.ackno + 1)) (omega arith)
          (omega (arith, p.numbers)) (omega (arith, p.numbers, p.in_window)) in
      let s1 : GoBackServer h = record s {
        base_seq_no = ack.ackno + 1;
        unacked_packet = packets file (ack.ackno + 1) (s.seq_no - (ack.ackno + 1));
      } in
      let s' : GoBackServer h = if is_empty s1.unacked_packet then s1 else restart_timer h s1 in
      let (base, out, next) =
        if-both
          (λ (s' : GoBackServer h).
            (s'.base_seq_no ≡ ack.ackno + 1)
            × (s'.unacked_packet ≡ packets file (ack.ackno + 1) (s.seq_no - (ack.ackno + 1)))
            × (s'.seq_no ≡ s.seq_no))
          (is_empty s1.unacked_packet) _ _ (λ _. (refl, refl, refl)) (λ _. (refl, refl, refl)) in
      (s', rw (r.in_time, r.fine, accepted, p.unacked, slid) refl, base, out, next)

  -- One that the window admits but that names a packet not yet sent erases from an empty vector.
  pub acknowledge_beyond :
      IsSound h file window s
      → IsRead s ack
      → s.base_seq_no + window < 2 ^ 32
      → s.seq_no ≤ ack.ackno
      → ack.ackno < s.base_seq_no + window
      → acknowledge h window s ack ≡ none
  unfolding acknowledge
  acknowledge_beyond p r small low high =
      let accepted : (verify_checksum_ack ack
            && leb s.base_seq_no ack.ackno
            && ltb ack.ackno (u32 (s.base_seq_no + window)))
          ≡ true =
        ground (arith, r.verified, p.numbers) in
      let slid =
        slide_beyond file ack.ackno s.base_seq_no p.count (omega (arith, p.numbers))
          (omega (arith, p.numbers)) in
      rw (r.in_time, r.fine, accepted, p.unacked, slid) refl
