-- ===== src/GoBackN/Server/Heeding.antt =====
-- GoBackServer.cpp: `receive_ack` as a whole, and what it takes for an acknowledgement.
use reliable_data_transfer.Base.{
  Bool-cases, List, [], ◌∷◌, ℕ, ◌+◌, ◌≤◌, ◌<◌, Bool, true, false, Option, some, ◌≡◌, refl, ◌⊎◌, inl,
  inr, subst, arith, if-both, ltb, leb, u32, ◌&&◌,
}
use reliable_data_transfer.Packet.{Packet, AckPacket, verify_checksum_ack}
use reliable_data_transfer.Socket.{
  Host, Net, Reception, timeout, may_receive, transmit, update_remaining_timeout_nc,
  receive_ack_from,
}
use reliable_data_transfer.Run.{or_fault, Ensures, bind-Ensures, or_fault-Ensures}
use reliable_data_transfer.GoBackN.Server.{
  GoBackServer, slide, acknowledge, receive_ack, retransmit, update_timer, restart_timer, is_empty,
}

module _ (h : Host) (window : ℕ) (s : GoBackServer h) where
  -- Whether `recvfrom` is called, and what it brings.
  abbrev pub asks : Bool
  asks =
      let t = update_remaining_timeout_nc h timeout s.send_time s.net in
      (may_receive h t.over t.net).0

  abbrev pub heard : Option (Reception AckPacket × Net h)
  heard =
      let t = update_remaining_timeout_nc h timeout s.send_time s.net in
      receive_ack_from h (may_receive h t.over t.net).1 t.tv

  -- An acknowledgement of a number in the window has come in time and verifies.
  pub record IsHeard (c : Reception AckPacket) : Type 0 where
    pub later : Net h
    pub called : asks ≡ true
    pub came : heard ≡ some (c, later)
    pub in_time : c.time_out ≡ false
    pub fine : c.error ≡ false
    pub verified : verify_checksum_ack c.packet ≡ true
    pub not_before : s.base_seq_no ≤ c.packet.ackno
    pub in_window : c.packet.ackno < u32 (s.base_seq_no + window)

  -- Nothing is taken off the window and nothing is put on it.
  pub record IsKept (s' : GoBackServer h) : Type 0 where
    pub base : s'.base_seq_no ≡ s.base_seq_no
    pub out : s'.unacked_packet ≡ s.unacked_packet
    pub next : s'.seq_no ≡ s.seq_no

  -- The packets up to the acknowledged one are taken off, the base moves with them, and no packet is
  -- put on.
  pub record IsSlid (ackno : ℕ) (s' : GoBackServer h) : Type 0 where
    pub off : slide ackno s.base_seq_no s.unacked_packet ≡ some (s'.base_seq_no, s'.unacked_packet)
    pub next : s'.seq_no ≡ s.seq_no

  Heeds : Bool × GoBackServer h → Type 0
  Heeds r = IsKept r.1 ⊎ ((c : Reception AckPacket) × IsHeard c × IsSlid c.packet.ackno r.1)

  retransmit-IsKept :
      (ps : List Packet) (first : Bool) (s1 : GoBackServer h)
      → IsKept s1
      → IsKept (retransmit h ps first s1).1
  unfolding retransmit restart_timer
  retransmit-IsKept [] first s1 k = k
  retransmit-IsKept (p ∷ ps) first s1 k =
      let t = transmit h s1.net p in
      elim (Bool-cases t.0) [
        | inr failed ↦
            rw (failed, retransmit) (record { base = k.base; out = k.out; next = k.next })
        | inl fine ↦
            rw (fine, retransmit)
              (retransmit-IsKept ps false _ (
                if-both IsKept first _ _ (λ _. record { base = k.base; out = k.out; next = k.next })
                  (λ _. record { base = k.base; out = k.out; next = k.next })))
      ]

  update_timer-IsKept : IsKept (update_timer h s).1
  unfolding update_timer
  update_timer-IsKept =
      let t = update_remaining_timeout_nc h timeout s.send_time s.net in
      let s1 : GoBackServer h = record s { net = t.net } in
      let same : IsKept s1 = record { base = refl; out = refl; next = refl } in
      if-both (λ (r : Bool × GoBackServer h). IsKept r.1) t.over _ _
        (λ _. retransmit-IsKept s.unacked_packet true s1 same) (λ _. same)

  Heeds-acknowledge :
      (c : Reception AckPacket) (net : Net h)
      → asks ≡ true
      → heard ≡ some (c, net)
      → Ensures {S = GoBackServer h}
          (λ s'. Unit)
          Heeds
          (or_fault (
            acknowledge h window
              (record s { error = c.error; time_out = c.time_out; net = net })
              c.packet))
  unfolding acknowledge or_fault Heeds restart_timer
  Heeds-acknowledge c net called came =
      if-both P c.time_out _ _ (λ _. kept)
        (λ in_time.
          if-both P c.error _ _ (λ _. kept)
            (λ fine.
              if-both P
                (verify_checksum_ack c.packet
                  && leb s.base_seq_no c.packet.ackno
                  && ltb c.packet.ackno (u32 (s.base_seq_no + window)))
                _ _
                (λ test.
                  bind-Ensures {S = GoBackServer h} (λ s'. Unit)
                    (λ r. slide c.packet.ackno s.base_seq_no s.unacked_packet ≡ some r) Heeds
                    (slide c.packet.ackno s.base_seq_no s.unacked_packet) _
                    (or_fault-Ensures (λ s'. Unit) _ _ (λ r e. e))
                    (λ r slid. inr (
                      c,
                      record {
                        later = net;
                        called = called;
                        came = came;
                        in_time = in_time;
                        fine = fine;
                        verified = ground arith;
                        not_before = ground arith;
                        in_window = ground arith;
                      },
                      if-both (IsSlid c.packet.ackno) (is_empty r.1) _ _
                          (λ _. record { off = slid; next = refl })
                          (λ _. record { off = slid; next = refl }),
                    )))
                (λ _. kept)))
    where
      P : Option (Bool × GoBackServer h) → Type 0
      P o = Ensures {S = GoBackServer h} (λ s'. Unit) Heeds (or_fault o)

      kept : Heeds (false, record s { error = c.error; time_out = c.time_out; net = net })
      kept = inl (record { base = refl; out = refl; next = refl })

  Heeds-receive_ack :
      Ensures {S = GoBackServer h} (λ s'. Unit) Heeds (or_fault (receive_ack h window s))
  unfolding receive_ack or_fault Heeds
  Heeds-receive_ack =
      let t = update_remaining_timeout_nc h timeout s.send_time s.net in
      if-both (λ o. Ensures {S = GoBackServer h} (λ s'. Unit) Heeds (or_fault o))
        (may_receive h t.over t.net).0 _ _
        (λ called.
          bind-Ensures {S = GoBackServer h} (λ s'. Unit) (λ r. heard ≡ some r) Heeds heard _
            (or_fault-Ensures (λ s'. Unit) _ heard (λ r e. e))
            (λ (c, net) came. Heeds-acknowledge c net called came))
        (λ _. inl (record { base = refl; out = refl; next = refl }))

  -- Whatever recvfrom brings, and whether it is called or not, one call of receive_ack in the go-
  -- back-n server, where it is defined, leaves the base, the next number and the packets that are
  -- out as they were, or recvfrom has been called and has brought, in time and without an error, an
  -- acknowledgement that verifies and names a number in the window: then the packets up to that
  -- number are taken off, as by slide, and none is put on. And updateTimer leaves the base, the
  -- next number and the packets that are out as they were, whether it resends or not.
  pub receive_ack_heeds :
      (ok : Bool) (s' : GoBackServer h)
      → receive_ack h window s ≡ some (ok, s')
      → IsKept (update_timer h s).1
        × (IsKept s' ⊎ ((c : Reception AckPacket) × IsHeard c × IsSlid c.packet.ackno s'))
  unfolding or_fault Heeds
  receive_ack_heeds ok s' e = (
    update_timer-IsKept,
    subst (λ o. Ensures {S = GoBackServer h} (λ s'. Unit) Heeds (or_fault o)) e Heeds-receive_ack,
  )
