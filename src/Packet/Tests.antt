-- ===== src/Packet/Tests.antt =====
-- packet_utils.cpp on small packets.
use reliable_data_transfer.Base.{
  ◌+◌, ◌*◌, ◌/◌, ◌%◌, ◌^◌, ◌≡◌, refl, true, false, [], ◌∷◌, some, arith, length, get_or, set, take,
}
use reliable_data_transfer.Packet.{
  Packet, fold_carry, header_sum, with_checksum, create_data_packet, create_ack_packet,
  calculate_checksum, calculate_checksum_ack, verify_checksum, verify_checksum_ack,
  extract_pure_data,
}
use reliable_data_transfer.Packet.Checksum.{
  verify_checksum_detects, calculate_checksum_low, even_byte_sum,
}
use reliable_data_transfer.Packet.Blind.{verify_checksum_blind}
use reliable_data_transfer.Packet.Copy.{
  data_packet, verify-data_packet, length-padded, padded, extract-create,
}

-- Two bytes of data in packet 5.
abbrev sample : Packet
sample = data_packet (7 ∷ 8 ∷ []) 2 5

sample_long : length sample.payload ≡ 512
unfolding data_packet with_checksum
sample_long = length-padded (7 ∷ 8 ∷ []) 2 (omega arith) (omega arith)

sample_first : get_or sample.payload 0 0 ≡ 7
unfolding data_packet with_checksum get_or take
sample_first = refl

-- An acknowledgement of packet 5 and one whose number was damaged.
ack_checksum : (create_ack_packet 5).cksum ≡ 15
unfolding create_ack_packet calculate_checksum_ack header_sum fold_carry
ack_checksum = refl

damaged_ack : verify_checksum_ack (record { cksum = 15; len = 8; ackno = 4 }) ≡ false
unfolding verify_checksum_ack calculate_checksum_ack header_sum fold_carry
damaged_ack = refl

verify_checksum_detects_example :
    verify_checksum (record sample { payload = set sample.payload (2 * 0) 9 }) ≡ false
verify_checksum_detects_example =
    verify_checksum_detects sample 0 9 sample_long (omega arith) (omega arith)
      (omega (arith, sample_first)) (λ e. absurd (omega (arith, e, sample_first)))
      (verify-data_packet (7 ∷ 8 ∷ []) 2 5)

-- Packet 261 passes for packet 5.
verify_checksum_blind_example :
    verify_checksum (record sample { seqno = 261; payload = sample.payload }) ≡ true
unfolding data_packet with_checksum
verify_checksum_blind_example =
    verify_checksum_blind sample 261 sample.payload refl refl (λ i h. refl)
      (verify-data_packet (7 ∷ 8 ∷ []) 2 5)

calculate_checksum_low_example :
    calculate_checksum sample % 256
    ≡ (sample.len
        + sample.seqno / 2 ^ 16
        + sample.seqno % 256
        + even_byte_sum 32 0 sample.payload
        + 34)
      % 256
calculate_checksum_low_example = calculate_checksum_low sample

extract-create_example :
    (pack : Packet) × (create_data_packet (7 ∷ 8 ∷ []) 2 5 ≡ some pack)
    × (verify_checksum pack ≡ true)
    × (pack.seqno ≡ 5)
    × (pack.len ≡ 8 + 2)
    × (extract_pure_data pack ≡ some (record { size = 2; payload = padded (7 ∷ 8 ∷ []) 2 }))
extract-create_example = extract-create (7 ∷ 8 ∷ []) 2 5 (omega arith) (omega arith)
