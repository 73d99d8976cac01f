-- ===== src/Socket/Lossless.antt =====
-- A network that loses nothing, with a receiver that acknowledges each packet at once.
use reliable_data_transfer.Base.{
  ℕ, zero, suc, ◌+◌, ◌*◌, ◌≤◌, ap, ◌∙◌, [], ◌∷◌, ◌++◌, ◌<◌, ◌^◌, true, false, List, some, ◌≡◌, refl,
  arith, length, take_all, lt→ltb, eq→==,
}
use reliable_data_transfer.Packet.{create_ack_packet, verify_checksum_ack, calculate_checksum_ack}
use reliable_data_transfer.Serial.{serialize_packet, serialize_ackpacket}
use reliable_data_transfer.Serial.Datagrams.{
  IsAckPacket, deserialize-serialize_ackpacket, length-serialize_ackpacket,
}
use reliable_data_transfer.Socket.{
  Recv, Host, Net, receive_ack_packet, receive_ack_from, fill_buffer, time_now, transmit,
  send_packet, timeout, is_over, update_remaining_timeout, update_remaining_timeout_nc,
}
use reliable_data_transfer.Socket.Genuine.{IsSent, sent_packet}

-- The world is idle until a packet of the file is sent; then its acknowledgement is pending until
-- it is received. No draw drops a packet, sending succeeds, and the clock stands still.
pub record IsLossless (h : Host) (file : List ℕ) : Type 1 where
  pub Idle : Host.World h → Type 0
  pub Pending : ℕ → Host.World h → Type 0
  pub now : ℕ
  pub clock : (w : Host.World h) → (Host.gettimeofday h w).0 ≡ now
  pub clock_idle : (w : Host.World h) → Idle w → Idle (Host.gettimeofday h w).1
  pub clock_pending : (i : ℕ) (w : Host.World h) → Pending i w → Pending i (Host.gettimeofday h w).1
  pub kept : (w : Host.World h) → Idle w → (Host.drop_packet h w).0 ≡ false
  pub kept_idle : (w : Host.World h) → Idle w → Idle (Host.drop_packet h w).1
  pub sends :
      (i : ℕ) (w : Host.World h)
      → Idle w
      → IsSent file i
      → (Host.sendto h (serialize_packet (sent_packet file i)) w).0 ≡ true
  pub sends_pending :
      (i : ℕ) (w : Host.World h)
      → Idle w
      → IsSent file i
      → Pending i (Host.sendto h (serialize_packet (sent_packet file i)) w).1
  pub answers :
      (i tv : ℕ) (w : Host.World h)
      → Pending i w
      → (Host.recvfrom h tv w).0.bytes ≡ serialize_ackpacket (create_ack_packet i)
  pub data_idle : (w : Host.World h) → Idle w → (Host.has_data h w).0 ≡ false
  pub data_pending : (i : ℕ) (w : Host.World h) → Pending i w → (Host.has_data h w).0 ≡ true
  pub asked_idle : (w : Host.World h) → Idle w → Idle (Host.has_data h w).1
  pub asked_pending : (i : ℕ) (w : Host.World h) → Pending i w → Pending i (Host.has_data h w).1
  pub answers_idle : (i tv : ℕ) (w : Host.World h) → Pending i w → Idle (Host.recvfrom h tv w).1

-- The acknowledgements that the receivers make verify.
pub create_ack_packet_verifies : (i : ℕ) → verify_checksum_ack (create_ack_packet i) ≡ true
unfolding create_ack_packet verify_checksum_ack calculate_checksum_ack
create_ack_packet_verifies i = eq→== _ _ refl

pub create_ack_packet_ackno : (i : ℕ) → (create_ack_packet i).ackno ≡ i
unfolding create_ack_packet
create_ack_packet_ackno i = refl

create_ack_packet-IsAckPacket : (i : ℕ) → i < 2 ^ 32 → IsAckPacket (create_ack_packet i)
unfolding create_ack_packet calculate_checksum_ack
create_ack_packet-IsAckPacket i lt = record {
  cksum_fits = omega arith;
  len_fits = omega arith;
  ackno_fits = lt;
}

-- An acknowledgement is read as it was made.
pub receive_ack_packet_genuine :
    (i : ℕ) (r : Recv)
    → i < 2 ^ 32
    → r.bytes ≡ serialize_ackpacket (create_ack_packet i)
    → receive_ack_packet r
      ≡ some (record { packet = create_ack_packet i; error = false; time_out = false })
unfolding receive_ack_packet fill_buffer
receive_ack_packet_genuine i r lt e =
    let long = length-serialize_ackpacket (create_ack_packet i) in
    rw
      (
        e,
        lt→ltb 0 (length (serialize_ackpacket (create_ack_packet i))) (omega (arith, long)),
        take_all 8 (serialize_ackpacket (create_ack_packet i)) (omega (arith, long)),
        deserialize-serialize_ackpacket (create_ack_packet i) _
            (create_ack_packet-IsAckPacket i lt),
      )
      refl

-- The datagrams of so many packets of the transfer, from packet `k` on, in their order.
unfoldable pub datagrams : List ℕ → (k n : ℕ) → List (List ℕ)
datagrams file k zero = []
datagrams file k (suc n) = serialize_packet (sent_packet file k) ∷ datagrams file (k + 1) n

datagrams-suc :
    (file : List ℕ) (k n : ℕ)
    → datagrams file k n ++ serialize_packet (sent_packet file (k + n)) ∷ []
      ≡ datagrams file k (suc n)
unfolding datagrams
datagrams-suc file k zero =
    let e : k + 0 ≡ k = omega arith in ap (λ i. serialize_packet (sent_packet file i) ∷ []) e
datagrams-suc file k (suc n) =
    let e : k + suc n ≡ k + 1 + n = omega arith in
    ap (◌∷◌ (serialize_packet (sent_packet file k))) (
      ap (λ i. datagrams file (k + 1) n ++ serialize_packet (sent_packet file i) ∷ []) e
      ∙ datagrams-suc file (k + 1) n)

datagrams_next :
    (file : List ℕ) (n : ℕ)
    → datagrams file 0 n ++ serialize_packet (sent_packet file n) ∷ [] ≡ datagrams file 0 (n + 1)
datagrams_next file n =
    let number : n ≡ 0 + n = omega arith in
    let count : suc n ≡ n + 1 = omega arith in
    ap (λ i. datagrams file 0 n ++ serialize_packet (sent_packet file i) ∷ []) number
    ∙ datagrams-suc file 0 n
    ∙ ap (datagrams file 0) count

-- Every packet of the transfer has gone out once, in its order.
pub record IsAllOnce (file : List ℕ) (sent : List (List ℕ)) : Type 0 where
  pub count : ℕ
  pub in_order : sent ≡ datagrams file 0 count
  pub whole : length file + 512 ≤ 512 * count
  pub no_more : 512 * count < length file + 1024

module _ (h : Host) (file : List ℕ) (l : IsLossless h file) where
  -- So many packets have gone out, each once and in their order, and all are acknowledged.
  abbrev pub IsIdle : ℕ → Net h → Type 0
  IsIdle i net = l.Idle net.world × (net.sent ≡ datagrams file 0 i)

  -- The packet with the number is the last one that has gone out, and awaits its acknowledgement.
  abbrev pub IsPending : ℕ → Net h → Type 0
  IsPending i net = l.Pending i net.world × (net.sent ≡ datagrams file 0 (i + 1))

  pub no_datagrams : (net : Net h) → l.Idle net.world → net.sent ≡ [] → IsIdle 0 net
  unfolding datagrams
  no_datagrams net idle none_sent = (idle, none_sent)

  pub transmit_lossless :
      (i : ℕ) (net : Net h)
      → IsIdle i net
      → IsSent file i
      → ((transmit h net (sent_packet file i)).0 ≡ true)
        × IsPending i (transmit h net (sent_packet file i)).1
  unfolding transmit send_packet
  transmit_lossless i net (idle, before) sent = rw (l.kept net.world idle) (
    l.sends i (Host.drop_packet h net.world).1 (l.kept_idle net.world idle) sent,
    (
      l.sends_pending i (Host.drop_packet h net.world).1 (l.kept_idle net.world idle) sent,
      ap (λ ds. ds ++ serialize_packet (sent_packet file i) ∷ []) before ∙ datagrams_next file i,
    ),
  )

  pub receive_ack_from_lossless :
      (i tv : ℕ) (net : Net h)
      → IsPending i net
      → i < 2 ^ 32
      → (net' : Net h) × (receive_ack_from h net tv
          ≡ some (record { packet = create_ack_packet i; error = false; time_out = false }, net'))
        × IsIdle (i + 1) net'
  unfolding receive_ack_from
  receive_ack_from_lossless i tv net (pending, before) lt = (
    record net { world = (Host.recvfrom h tv net.world).1 },
    rw
        (receive_ack_packet_genuine i (Host.recvfrom h tv net.world).0 lt
          (l.answers i tv net.world pending))
        refl,
    (l.answers_idle i tv net.world pending, before),
  )

  -- Both times are read from a clock that stands still, so no timeout is over.
  pub update_remaining_timeout_lossless :
      (i : ℕ) (net : Net h)
      → IsPending i net
      → ((update_remaining_timeout h timeout l.now net).over ≡ false)
        × IsPending i (update_remaining_timeout h timeout l.now net).net
  unfolding update_remaining_timeout time_now is_over
  update_remaining_timeout_lossless i net (pending, before) =
      let still = l.clock net.world in (ground arith, (l.clock_pending i net.world pending, before))

  pub update_remaining_timeout_nc_lossless :
      (net : Net h) → (update_remaining_timeout_nc h timeout l.now net).over ≡ false
  unfolding update_remaining_timeout_nc time_now is_over
  update_remaining_timeout_nc_lossless net = let still = l.clock net.world in ground arith
