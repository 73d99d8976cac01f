-- ===== src/Socket/Genuine.antt =====
-- The datagrams that a transfer of a file puts on the wire, and what becomes of them on arrival.
use reliable_data_transfer.Base.{
  ℕ, ◌+◌, ◌-◌, ◌*◌, ◌^◌, ◌<◌, true, false, List, some, ◌⊎◌, ◌≡◌, refl, arith, length, take_all, ◌∙◌,
  ap, lt→ltb,
}
use reliable_data_transfer.Packet.{Packet, create_core_packet, verify_checksum, extract_pure_data}
use reliable_data_transfer.Packet.Copy.{
  data_packet, create_core_packet_fits, verify-data_packet, extract-data_packet, data_packet_fields,
}
use reliable_data_transfer.Serial.{serialize_packet}
use reliable_data_transfer.Serial.Datagrams.{
  IsPacket, length-serialize_packet, deserialize-serialize_packet,
}
use reliable_data_transfer.DataManagers.Feeding.{
  segment, chunk, padded-segment, segment_size, segment_fits,
}
use reliable_data_transfer.Socket.{Recv, Reception, receive_packet, fill_buffer}

-- Packet `i` of the transfer of a file.
pub sent_packet : List ℕ → ℕ → Packet
sent_packet file i = data_packet (segment file i).payload (segment file i).size i

-- The packets of a transfer are those with data and one empty packet behind them.
abbrev pub IsSent : List ℕ → ℕ → Type 0
IsSent file i = 512 * i < length file + 512

-- The sequence numbers do not wrap.
abbrev pub Fits : List ℕ → Type 0
Fits file = length file < 512 * (2 ^ 32 - 2)

-- It is what the sender builds from the segment.
pub create-sent_packet :
    (file : List ℕ) (i : ℕ) → create_core_packet (segment file i) i ≡ some (sent_packet file i)
unfolding sent_packet
create-sent_packet file i =
    create_core_packet_fits (segment file i) i (segment_fits file i).0
      (omega (arith, segment_fits file i))

pub record IsSentPacket (file : List ℕ) (i : ℕ) (pack : Packet) : Type 0 where
  pub verifies : verify_checksum pack ≡ true
  pub number : pack.seqno ≡ i
  pub long : pack.len ≡ 8 + length (chunk file i)
  pub carries : extract_pure_data pack ≡ some (segment file i)

-- A packet of the transfer verifies, carries its number and gives back its segment.
pub sent_packet-IsSentPacket : (file : List ℕ) (i : ℕ) → IsSentPacket file i (sent_packet file i)
unfolding sent_packet
sent_packet-IsSentPacket file i = record {
  verifies = verify-data_packet (segment file i).payload (segment file i).size i;
  number = (data_packet_fields (segment file i).payload (segment file i).size i).0;
  long =
      (data_packet_fields (segment file i).payload (segment file i).size i).1
      ∙ ap (◌+◌ 8) (segment_size file i);
  carries =
      extract-data_packet (segment file i).payload (segment file i).size i (segment_fits file i).0
        (omega (arith, segment_fits file i))
      ∙ ap (λ bytes. some (record { size = (segment file i).size; payload = bytes }))
          (padded-segment file i);
}

pub sent_packet-IsPacket : (file : List ℕ) (i : ℕ) → i < 2 ^ 32 → IsPacket (sent_packet file i)
unfolding sent_packet
sent_packet-IsPacket file i h = omega (
  arith,
  data_packet_fields (segment file i).payload (segment file i).size i,
  segment_fits file i,
  ap (length {0}) (padded-segment file i),
  ap (length {0}) (data_packet_fields (segment file i).payload (segment file i).size i).2,
)

-- The datagram that arrived is a packet of the transfer.
abbrev pub IsDatagram : List ℕ → ℕ → Recv → Type 0
IsDatagram file i r = IsSent file i × (r.bytes ≡ serialize_packet (sent_packet file i))

pub receive_packet-IsDatagram :
    (file : List ℕ) (i : ℕ) (r : Recv)
    → Fits file
    → IsDatagram file i r
    → receive_packet r
      ≡ some (record { packet = sent_packet file i; error = false; time_out = false })
unfolding receive_packet fill_buffer
receive_packet-IsDatagram file i r fits (sent, e) =
    rw
      (
        e,
        lt→ltb 0 (length (serialize_packet (sent_packet file i))) (omega (arith, long)),
        take_all 520 (serialize_packet (sent_packet file i)) (omega (arith, long)),
        deserialize-serialize_packet (sent_packet file i) _
            (sent_packet-IsPacket file i (omega arith)),
      )
      refl
  where
    long : length (serialize_packet (sent_packet file i)) ≡ 520
    long =
        length-serialize_packet (sent_packet file i)
          (sent_packet-IsPacket file i (omega arith)).full

-- The receiver gets nothing, or a packet whose checksum shows that it is damaged.
abbrev pub IsRejected : Recv → Type 0
IsRejected r =
    (c : Reception Packet) × (receive_packet r ≡ some c)
    × ((c.error ≡ true) ⊎ (c.time_out ≡ true) ⊎ (verify_checksum c.packet ≡ false))

-- What the network may deliver: packets of the transfer, in any order and any number, and losses,
-- failures and damage that the checksum shows.
abbrev pub Arrives : List ℕ → Recv → Type 0
Arrives file r = ((i : ℕ) × IsDatagram file i r) ⊎ IsRejected r
