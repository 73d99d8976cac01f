-- ===== src/Serial/Tests.antt =====
-- serial.cpp on small datagrams.
use reliable_data_transfer.Base.{◌≡◌, refl, [], ◌∷◌, ◌++◌, none, some, arith}
use reliable_data_transfer.Packet.{Packet, AckPacket, zero_bytes}
use reliable_data_transfer.Packet.Copy.{length-zero_bytes}
use reliable_data_transfer.Serial.{
  serialize_uint16, serialize_uint32, serialize_packet, serialize_ackpacket, deserialize_uint16,
  deserialize_uint32, deserialize_packet, deserialize_ackpacket,
}
use reliable_data_transfer.Serial.Datagrams.{
  deserialize-serialize_packet, deserialize-serialize_ackpacket,
}

-- Acknowledgement 0x01020304.
abbrev sample_ack : AckPacket
sample_ack = record { cksum = 0xABCD; len = 8; ackno = 0x01020304 }

sample_ack_bytes : serialize_ackpacket sample_ack ≡ 0xAB ∷ 0xCD ∷ 0 ∷ 8 ∷ 1 ∷ 2 ∷ 3 ∷ 4 ∷ []
unfolding serialize_ackpacket serialize_uint16 serialize_uint32
sample_ack_bytes = refl

cut_ack : deserialize_ackpacket (0xAB ∷ 0xCD ∷ 0 ∷ 8 ∷ 1 ∷ 2 ∷ 3 ∷ []) ≡ none
unfolding deserialize_ackpacket deserialize_uint16 deserialize_uint32
cut_ack = refl

abbrev sample : Packet
sample = record { check_sum = 77; len = 8; seqno = 70000; payload = zero_bytes 512 }

deserialize-serialize_packet_example :
    deserialize_packet (serialize_packet sample ++ 9 ∷ []) ≡ some sample
deserialize-serialize_packet_example =
    deserialize-serialize_packet sample (9 ∷ []) (omega (arith, length-zero_bytes 512))

deserialize-serialize_ackpacket_example :
    deserialize_ackpacket (serialize_ackpacket sample_ack ++ 7 ∷ []) ≡ some sample_ack
deserialize-serialize_ackpacket_example =
    deserialize-serialize_ackpacket sample_ack (7 ∷ []) (omega arith)
