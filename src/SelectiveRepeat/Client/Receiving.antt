-- ===== src/SelectiveRepeat/Client/Receiving.antt =====
-- SelectiveRepeatClient.cpp: what one arrival does to the file.
use reliable_data_transfer.Base.{
  ℕ, ◌+◌, ◌≤◌, ◌<◌, ◌^◌, ◌%◌, Bool, true, false, List, [], some, ◌⊎◌, inl, inr, ◌∙◌, sym, subst,
  ◌≡◌, refl, arith, take_zero, ◌||◌, ◌&&◌, not, ltb, leb,
}
use reliable_data_transfer.Base.Maps.{lookup}
use reliable_data_transfer.Packet.{Packet, verify_checksum}
use reliable_data_transfer.DataManagers.{DataSink}
use reliable_data_transfer.DataManagers.Sinking.{Holds}
use reliable_data_transfer.Socket.{Recv}
use reliable_data_transfer.Socket.Genuine.{
  Fits, IsSent, IsDatagram, Arrives, sent_packet, sent_packet-IsSentPacket,
  receive_packet-IsDatagram,
}
use reliable_data_transfer.SelectiveRepeat.Client.{
  SelectiveRepeatClient, new_client, acknowledge, accept, min_pack, handle, receive_one, running,
}
use reliable_data_transfer.SelectiveRepeat.Client.Accepting.{Delivers, accept-Delivers}

module _ (file : List ℕ) (fits : Fits file) (window : ℕ) where
  -- Where a packet of the transfer stands: behind the window, beyond it, or inside.
  handle_cases :
      (c : SelectiveRepeatClient) (i : ℕ)
      → (c.error || c.time_out) ≡ false
      → (handle window c (sent_packet file i) ≡ some (acknowledge c i))
        ⊎ (handle window c (sent_packet file i) ≡ some c)
        ⊎ (handle window c (sent_packet file i) ≡ accept c (sent_packet file i))
  unfolding handle
  handle_cases c i fine =
      let pack = sent_packet-IsSentPacket file i in
      rw (fine, pack.verifies) (rw pack.number (ground arith))

  acknowledge-Delivers :
      (c : SelectiveRepeatClient) (i : ℕ) → Delivers file c → Delivers file (acknowledge c i)
  unfolding acknowledge
  acknowledge-Delivers c i d = record {
    collects = record {
      holds = d.collects.holds;
      range = d.collects.range;
      buffers = d.collects.buffers;
    };
    waits = d.waits;
    over = d.over;
  }

  base-acknowledge :
      (c : SelectiveRepeatClient) (i : ℕ) → (acknowledge c i).base_ack_no ≡ c.base_ack_no
  unfolding acknowledge
  base-acknowledge c i = refl

  handle-Delivers :
      (c : SelectiveRepeatClient) (i : ℕ)
      → Delivers file c
      → IsSent file i
      → (c.error || c.time_out) ≡ false
      → (c' : SelectiveRepeatClient) × (handle window c (sent_packet file i) ≡ some c')
        × Delivers file c'
        × (c.base_ack_no ≤ c'.base_ack_no)
  handle-Delivers c i d sent fine = elim (handle_cases c i fine) [
    | inl again ↦
        (acknowledge c i, again, acknowledge-Delivers c i d, omega (arith, base-acknowledge c i))
    | inr (inl beyond) ↦ (c, beyond, d, omega arith)
    | inr (inr inside) ↦
        let (c', e, d', le, _) = accept-Delivers file fits c i d sent in (c', inside ∙ e, d', le)
  ]

  -- What the reception leaves in the two flags.
  abbrev flagged : SelectiveRepeatClient → Bool → Bool → SelectiveRepeatClient
  flagged c error time_out = record c { error = error; time_out = time_out }

  flagged-Delivers :
      (c : SelectiveRepeatClient) (e t : Bool) → Delivers file c → Delivers file (flagged c e t)
  flagged-Delivers c e t d = record {
    collects = record {
      holds = d.collects.holds;
      range = d.collects.range;
      buffers = d.collects.buffers;
    };
    waits = d.waits;
    over = d.over;
  }

  -- Nothing, or a damaged packet: only the flags change.
  ignored :
      (c : SelectiveRepeatClient) (packet : Packet)
      → (c.error ≡ true) ⊎ (c.time_out ≡ true) ⊎ (verify_checksum packet ≡ false)
      → handle window c packet ≡ some c
  unfolding handle
  ignored c packet why = ground arith

  pub receive_one-Delivers :
      (c : SelectiveRepeatClient) (r : Recv)
      → Delivers file c
      → Arrives file r
      → (c' : SelectiveRepeatClient) × (receive_one window c r ≡ some c')
        × Delivers file c'
        × (c.base_ack_no ≤ c'.base_ack_no)
  unfolding receive_one
  receive_one-Delivers c r d (inr (rec, e, why)) = (
    flagged c rec.error rec.time_out,
    rw e (ignored (flagged c rec.error rec.time_out) rec.packet why),
    flagged-Delivers c _ _ d,
    omega arith,
  )
  receive_one-Delivers c r d (inl (i, p)) =
      let (c', e, d', le) =
        handle-Delivers (flagged c false false) i (flagged-Delivers c _ _ d) p.0 refl in
      (c', rw (receive_packet-IsDatagram file i r fits p) e, d', le)

  -- The packet at the window's start is inside the window, unless the window is empty or wraps.
  pub in_turn :
      (c : SelectiveRepeatClient) (r : Recv)
      → 0 < window
      → c.base_ack_no + window < 2 ^ 32
      → Delivers file c
      → IsDatagram file c.base_ack_no r
      → (c' : SelectiveRepeatClient) × (receive_one window c r ≡ some c')
        × (c.base_ack_no ≤ c'.base_ack_no)
        × ((c.base_ack_no + 1 ≤ c'.base_ack_no) ⊎ (running c' ≡ false))
  unfolding receive_one handle
  in_turn c r some_window no_wrap d p =
      let base : ℕ = c.base_ack_no in
      let pack = sent_packet-IsSentPacket file base in
      let (c', e, d', le, goes) =
        accept-Delivers file fits (flagged c false false) base (flagged-Delivers c _ _ d) p.0 in
      let n : ℕ = (sent_packet file base).seqno in
      let is_base : n ≡ base = pack.number in
      let inside : (not (ltb n base) && not (leb ((base + window) % 2 ^ 32) n)) ≡ true =
        ground arith in
      let not_before : (ltb n base && leb (min_pack base window) n) ≡ false = ground arith in
      (
        c',
        rw (receive_packet-IsDatagram file base r fits p, pack.verifies, not_before, inside) e,
        le,
        goes refl,
      )

  pub new_client-Delivers : (sink : DataSink) → Holds [] sink → Delivers file (new_client sink)
  unfolding new_client lookup
  new_client-Delivers sink h = record {
    collects = record {
      holds = subst (λ bytes. Holds bytes sink) (sym (take_zero file)) h;
      range = omega arith;
      buffers = λ k core e. absurd (cc);
    };
    waits = refl;
    over = λ e. cc;
  }
