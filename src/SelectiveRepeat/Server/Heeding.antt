-- ===== src/SelectiveRepeat/Server/Heeding.antt =====
-- SelectiveRepeatServer.cpp: `receive_ack` as a whole, and what it takes for an acknowledgement.
use reliable_data_transfer.Base.{
  ℕ, ◌+◌, ◌≤◌, ◌<◌, Bool, true, false, Option, some, ◌≡◌, refl, ◌⊎◌, if-both, u32, ◌&&◌, length,
}
use reliable_data_transfer.Base.Maps.{lookup, has, insert, erase}
use reliable_data_transfer.Packet.{AckPacket, verify_checksum_ack}
use reliable_data_transfer.Socket.{
  Host, Net, Reception, timeout, may_receive, update_remaining_timeout_nc, receive_ack_from,
}
use reliable_data_transfer.Run.{or_fault, Ensures}
use reliable_data_transfer.SelectiveRepeat.Server.{
  SelectiveRepeatServer, forward, is_in, remove, take_off, sent_time,
}

module _ (h : Host) (window : ℕ) (s : SelectiveRepeatServer h) (front : ℕ) where
  -- Whether `recvfrom` is called, with the oldest packet in front, and what it brings.
  abbrev pub asks : Bool
  asks =
      let t = update_remaining_timeout_nc h timeout (sent_time front s.seqnums_sent).0 s.net in
      (may_receive h t.over t.net).0

  abbrev pub heard : Option (Reception AckPacket × Net h)
  heard =
      let t = update_remaining_timeout_nc h timeout (sent_time front s.seqnums_sent).0 s.net in
      receive_ack_from h (may_receive h t.over t.net).1 t.tv

  -- An acknowledgement of a number in the window has come in time and verifies.
  pub record IsHeard (c : Reception AckPacket) : Type 0 where
    pub later : Net h
    pub called : asks ≡ true
    pub came : heard ≡ some (c, later)
    pub in_time : c.time_out ≡ false
    pub fine : c.error ≡ false
    pub verified : verify_checksum_ack c.packet ≡ true
    pub not_before : s.base_seq_no ≤ c.packet.ackno
    pub in_window : c.packet.ackno < u32 (s.base_seq_no + window)

  -- No packet is taken off and the window stays.
  pub record IsKept (s' : SelectiveRepeatServer h) : Type 0 where
    pub base : s'.base_seq_no ≡ s.base_seq_no
    pub next : s'.seq_no ≡ s.seq_no
    pub packets : s'.data_sent ≡ s.data_sent
    pub order : s'.send_order ≡ s.send_order
    pub acks : s'.acks ≡ s.acks

  -- The packet is taken off, and no other.
  pub record IsTaken (ackno : ℕ) (s' : SelectiveRepeatServer h) : Type 0 where
    pub next : s'.seq_no ≡ s.seq_no
    pub packets : s'.data_sent ≡ erase ackno s.data_sent
    pub order : s'.send_order ≡ remove ackno s.send_order
    pub base :
        s'.base_seq_no
        ≡ (forward (length (insert ackno tt s.acks)) s.base_seq_no (insert ackno tt s.acks)).0

  -- The worker behind the reception.
  abbrev pub told : Reception AckPacket → Net h → SelectiveRepeatServer h
  told c net = record s {
    seqnums_sent = (sent_time front s.seqnums_sent).1;
    error = c.error;
    time_out = c.time_out;
    net = net;
  }

  pub take_off-IsTaken :
      (c : Reception AckPacket) (net : Net h) (ackno : ℕ)
      → Ensures {S = SelectiveRepeatServer h}
          (λ s'. Unit)
          (IsTaken ackno)
          (or_fault (take_off h ackno (told c net)))
  unfolding take_off or_fault
  take_off-IsTaken c net ackno =
      if-both (λ o. Ensures {S = SelectiveRepeatServer h} (λ s'. Unit) (IsTaken ackno) (or_fault o))
        (has (lookup ackno s.data_sent) && is_in ackno s.send_order) _ _
        (λ _. record { next = refl; packets = refl; order = refl; base = refl }) (λ _. tt)

  Heeds : Bool × SelectiveRepeatServer h → Type 0
  Heeds r = IsKept r.1 ⊎ ((c : Reception AckPacket) × IsHeard c × IsTaken c.packet.ackno r.1)
