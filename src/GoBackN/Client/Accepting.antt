-- ===== src/GoBackN/Client/Accepting.antt =====
-- GoBackClient.cpp: what one arrival does to the file.
use reliable_data_transfer.Base.{
  ℕ, ◌+◌, ◌*◌, ◌≤◌, ◌<◌, ◌^◌, ◌%◌, Bool, true, false, List, [], some, ◌⊎◌, inl, inr, ◌∙◌, sym,
  subst, ◌≡◌, ◌≢◌, refl, arith, length, take, take_all, take_zero, Bool-cases, ◌==◌, eq→==, ne→==,
  ◌&&◌, ◌||◌,
}
use native.Mathlib.Decide.{dec_lt, ℕ_discrete}
use reliable_data_transfer.Packet.{Packet, create_ack_packet, verify_checksum}
use reliable_data_transfer.DataManagers.{DataSink}
use reliable_data_transfer.DataManagers.Feeding.{length-chunk}
use reliable_data_transfer.DataManagers.Sinking.{Holds, feed-segment}
use reliable_data_transfer.Socket.{Recv, send_ack_packet}
use reliable_data_transfer.Socket.Genuine.{
  Fits, IsSent, IsSentPacket, IsDatagram, Arrives, sent_packet, sent_packet-IsSentPacket,
  receive_packet-IsDatagram,
}
use reliable_data_transfer.GoBackN.Client.{GoBackClient, new_client, accept, handle, receive_one}

-- The file holds the segments below the awaited number, and all of the sent file at the end.
pub record Delivers (file : List ℕ) (c : GoBackClient) : Type 0 where
  pub holds : Holds (take (512 * c.base_ack_no) file) c.sink
  pub going : c.end ≡ false → IsSent file c.base_ack_no
  pub over : c.end ≡ true → length file + 512 ≤ 512 * c.base_ack_no

module _ (file : List ℕ) (fits : Fits file) where
  -- Taking a packet of the transfer in its turn moves the awaited number on by one.
  accept-Delivers :
      (c : GoBackClient)
      → Delivers file c
      → IsSent file c.base_ack_no
      → (c' : GoBackClient) × (accept c (sent_packet file c.base_ack_no) ≡ some c')
        × Delivers file c'
        × (c'.base_ack_no ≡ c.base_ack_no + 1)
  unfolding accept
  accept-Delivers c d sent = elim (dec_lt (512 * c.base_ack_no) (length file)) [
    | yes more ↦ with_data more
    | no done ↦ at_end (omega arith)
  ]
    where
      i : ℕ
      i = c.base_ack_no

      pack : IsSentPacket file i (sent_packet file i)
      pack = sent_packet-IsSentPacket file i

      no_wrap : (i + 1) % 2 ^ 32 ≡ i + 1
      no_wrap = omega arith

      with_data :
          512 * i < length file
          → (c' : GoBackClient) × (accept c (sent_packet file i) ≡ some c')
            × Delivers file c'
            × (c'.base_ack_no ≡ i + 1)
      with_data more =
          let not_empty : ((sent_packet file i).len == 8) ≡ false =
            ne→== _ 8 (omega (arith, pack.long, length-chunk file i)) in
          let (sink', e, h) = feed-segment file i c.sink (sent_packet file i).seqno d.holds in
          (
            record c {
              sink = sink';
              base_ack_no = i + 1;
              sent = send_ack_packet c.sent (create_ack_packet (sent_packet file i).seqno);
            },
            rw (not_empty, pack.carries, e, no_wrap) refl,
            record {
              holds = h;
              going = λ _. omega arith;
              over = λ ended. absurd (omega (arith, d.over ended));
            },
            refl,
          )

      at_end :
          length file ≤ 512 * i
          → (c' : GoBackClient) × (accept c (sent_packet file i) ≡ some c')
            × Delivers file c'
            × (c'.base_ack_no ≡ i + 1)
      at_end done =
          let empty : ((sent_packet file i).len == 8) ≡ true =
            eq→== _ 8 (omega (arith, pack.long, length-chunk file i)) in
          (
            record c {
              sent = send_ack_packet c.sent (create_ack_packet (sent_packet file i).seqno);
              base_ack_no = i + 1;
              end = true;
            },
            rw (empty, no_wrap) refl,
            record {
              holds = subst (λ bytes. Holds bytes c.sink) whole d.holds;
              going = λ e. cc;
              over = λ _. omega arith;
            },
            refl,
          )
        where
          whole : take (512 * i) file ≡ take (512 * (i + 1)) file
          whole = take_all (512 * i) file done ∙ sym (take_all (512 * (i + 1)) file (omega arith))

  -- A packet that is not in turn, or damaged, or missing, leaves the file and the number alone.
  ignore-Delivers :
      (c : GoBackClient) (packet : Packet)
      → Delivers file c
      → (c.error ≡ true)
        ⊎ (c.timeout ≡ true)
        ⊎ (verify_checksum packet ≡ false)
        ⊎ (packet.seqno ≢ c.base_ack_no)
      → (c' : GoBackClient) × (handle c packet ≡ some c')
        × Delivers file c'
        × (c'.base_ack_no ≡ c.base_ack_no)
        × (c'.end ≡ c.end)
  unfolding handle
  ignore-Delivers c packet d why = elim (Bool-cases (c.error || c.timeout)) [
    | inl failed ↦ (c, rw failed refl, d, refl, refl)
    | inr fine ↦
        let refused : (verify_checksum packet && (packet.seqno == c.base_ack_no)) ≡ false =
          ground arith in
        (c, rw (fine, refused) refl, d, refl, refl)
  ]

  -- What the reception leaves in the two flags.
  abbrev flagged : GoBackClient → Bool → Bool → GoBackClient
  flagged c error timeout = record c { error = error; timeout = timeout }

  flagged-Delivers :
      (c : GoBackClient) (e t : Bool) → Delivers file c → Delivers file (flagged c e t)
  flagged-Delivers c e t d = record { holds = d.holds; going = d.going; over = d.over }

  -- The packet of the transfer that is in turn, at a worker that is still waiting.
  pub in_turn :
      (c : GoBackClient) (r : Recv)
      → Delivers file c
      → IsDatagram file c.base_ack_no r
      → (c' : GoBackClient) × (receive_one c r ≡ some c')
        × Delivers file c'
        × (c'.base_ack_no ≡ c.base_ack_no + 1)
  unfolding receive_one handle
  in_turn c r d p =
      let ready : GoBackClient = flagged c false false in
      let pack = sent_packet-IsSentPacket file c.base_ack_no in
      let (c', e, d', n) =
        accept-Delivers ready (record { holds = d.holds; going = d.going; over = d.over }) p.0 in
      (
        c',
        rw
            (
              receive_packet-IsDatagram file c.base_ack_no r fits p,
              pack.verifies,
              eq→== (sent_packet file c.base_ack_no).seqno c.base_ack_no pack.number,
            )
            e,
        d',
        n,
      )

  -- Whatever arrives, the worker goes on without a fault.
  pub receive_one-Delivers :
      (c : GoBackClient) (r : Recv)
      → Delivers file c
      → Arrives file r
      → (c' : GoBackClient) × (receive_one c r ≡ some c')
        × Delivers file c'
        × (c.base_ack_no ≤ c'.base_ack_no)
  unfolding receive_one
  receive_one-Delivers c r d (inr (rec, e, why)) =
      let (c', e', d', n, _) =
        ignore-Delivers (flagged c rec.error rec.time_out) rec.packet (flagged-Delivers c _ _ d)
          (ground arith) in
      (c', rw e e', d', omega arith)
  receive_one-Delivers c r d (inl (i, p)) = elim (ℕ_discrete i c.base_ack_no) [
    | yes same ↦
        let (c', e, d', n) = in_turn c r d (subst (λ k. IsDatagram file k r) same p) in
        (c', e, d', omega arith)
    | no other ↦
        let pack = sent_packet-IsSentPacket file i in
        let (c', e', d', n, _) =
          ignore-Delivers (flagged c false false) (sent_packet file i) (flagged-Delivers c _ _ d)
            (inr (inr (inr (λ e. other (sym pack.number ∙ e))))) in
        (c', rw (receive_packet-IsDatagram file i r fits p) e', d', omega arith)
  ]

  pub new_client-Delivers : (sink : DataSink) → Holds [] sink → Delivers file (new_client sink)
  unfolding new_client
  new_client-Delivers sink h = record {
    holds = subst (λ bytes. Holds bytes sink) (sym (take_zero file)) h;
    going = λ _. omega arith;
    over = λ e. cc;
  }
