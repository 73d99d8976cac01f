-- ===== src/Serial/Datagrams.antt =====
-- serial.cpp: whole datagrams, and the round trips.
use reliable_data_transfer.Base.{
  List, ℕ, length-append, take-append, append_assoc, ◌^◌, ◌<◌, [], ◌++◌, some, ◌≡◌, refl, arith,
  length, drop, take_all, length-take, le→leb,
}
use reliable_data_transfer.Packet.{Packet, AckPacket}
use reliable_data_transfer.Serial.Words.{deserialize-serialize_uint16, deserialize-serialize_uint32}
use reliable_data_transfer.Serial.{
  serialize_uint16, serialize_uint32, serialize_charbuffer, deserialize_charbuffer,
  serialize_packet, serialize_ackpacket, deserialize_packet, deserialize_ackpacket,
}

-- What the C types of the fields say.
pub record IsPacket (pack : Packet) : Type 0 where
  pub check_sum_fits : pack.check_sum < 2 ^ 16
  pub len_fits : pack.len < 2 ^ 16
  pub seqno_fits : pack.seqno < 2 ^ 32
  pub full : length pack.payload ≡ 512

pub record IsAckPacket (pack : AckPacket) : Type 0 where
  pub cksum_fits : pack.cksum < 2 ^ 16
  pub len_fits : pack.len < 2 ^ 16
  pub ackno_fits : pack.ackno < 2 ^ 32

-- The writers one after the other.
serialize_packet-append :
    (pack : Packet)
    → IsPacket pack
    → serialize_packet pack
      ≡ serialize_uint16 [] pack.check_sum
        ++ (serialize_uint16 [] pack.len ++ (serialize_uint32 [] pack.seqno ++ pack.payload))
unfolding serialize_packet serialize_uint16 serialize_uint32 serialize_charbuffer
serialize_packet-append pack p = rw (take_all 512 pack.payload (omega arith))

serialize_ackpacket-append :
    (pack : AckPacket)
    → serialize_ackpacket pack
      ≡ serialize_uint16 [] pack.cksum
        ++ (serialize_uint16 [] pack.len ++ (serialize_uint32 [] pack.ackno ++ []))
unfolding serialize_ackpacket serialize_uint16 serialize_uint32
serialize_ackpacket-append pack = refl

-- `serialize_packet` returns 520, the size of the buffers at both ends.
pub length-serialize_packet :
    (pack : Packet) → length pack.payload ≡ 512 → length (serialize_packet pack) ≡ 520
unfolding serialize_packet serialize_uint16 serialize_uint32 serialize_charbuffer
length-serialize_packet pack full = omega (arith, length-take 512 pack.payload)

-- A data packet arrives as it was sent: the reader gives back every field, whatever stands in the
-- buffer behind it.
pub deserialize-serialize_packet :
    (pack : Packet) (rest : List ℕ)
    → IsPacket pack
    → deserialize_packet (serialize_packet pack ++ rest) ≡ some pack
unfolding deserialize_packet
deserialize-serialize_packet pack rest p =
    rw
      (
        serialize_packet-append pack p,
        append_assoc,
        deserialize-serialize_uint16 pack.check_sum _ p.check_sum_fits,
        append_assoc,
        deserialize-serialize_uint16 pack.len _ p.len_fits,
        append_assoc,
        deserialize-serialize_uint32 pack.seqno _ p.seqno_fits,
        payload_read,
      )
      refl
  where
    payload_read :
        deserialize_charbuffer (pack.payload ++ rest) 512
        ≡ some (pack.payload, drop 512 (pack.payload ++ rest))
    payload_read =
        unfold deserialize_charbuffer in
        rw
          (
            le→leb 512 (length (pack.payload ++ rest))
                (omega (arith, length-append pack.payload rest, p.full)),
            take-append pack.payload rest 512 p.full,
          )
          refl

-- An acknowledgement arrives as it was sent, whatever stands in the buffer behind it.
pub deserialize-serialize_ackpacket :
    (pack : AckPacket) (rest : List ℕ)
    → IsAckPacket pack
    → deserialize_ackpacket (serialize_ackpacket pack ++ rest) ≡ some pack
unfolding deserialize_ackpacket
deserialize-serialize_ackpacket pack rest p =
    rw
      (
        serialize_ackpacket-append pack,
        append_assoc,
        deserialize-serialize_uint16 pack.cksum _ p.cksum_fits,
        append_assoc,
        deserialize-serialize_uint16 pack.len _ p.len_fits,
        append_assoc,
        deserialize-serialize_uint32 pack.ackno _ p.ackno_fits,
      )
      refl

-- `serialize_ackpacket` returns 8, the size of the buffers at both ends.
pub length-serialize_ackpacket : (pack : AckPacket) → length (serialize_ackpacket pack) ≡ 8
unfolding serialize_ackpacket serialize_uint16 serialize_uint32
length-serialize_ackpacket pack = refl
