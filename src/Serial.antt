-- ===== src/Serial.antt =====
-- utils/serial.cpp: datagrams as bytes. A writer takes what stands in the buffer below its pointer
-- and gives the same with its bytes behind, a reader takes what stands from its pointer on. `none`
-- stands for a read past the end of the buffer.
pub mod Words
pub mod Datagrams
mod Tests
use reliable_data_transfer.Base.{
  ℕ, ◌+◌, ◌*◌, ◌/◌, ◌%◌, ◌^◌, bit_or, List, [], ◌∷◌, ◌++◌, Option, none, some, leb, if◌then◌else◌,
  ◌>>=◌, u8, u16, u32, length, take, drop,
}
use reliable_data_transfer.Packet.{Packet, AckPacket, pck_data_size}

pub serialize_uint16 : List ℕ → ℕ → List ℕ
serialize_uint16 buffer value = buffer ++ u8 (value / 2 ^ 8) ∷ u8 value ∷ []

pub serialize_uint32 : List ℕ → ℕ → List ℕ
serialize_uint32 buffer value =
    buffer ++ u8 (value / 2 ^ 24) ∷ u8 (value / 2 ^ 16) ∷ u8 (value / 2 ^ 8) ∷ u8 value ∷ []

-- `value` is an array of `num` bytes, as in both calls.
pub serialize_charbuffer : List ℕ → List ℕ → ℕ → List ℕ
serialize_charbuffer buffer value num = buffer ++ take num value

pub serialize_packet : Packet → List ℕ
serialize_packet pack =
    let temp = serialize_uint16 [] pack.check_sum in
    let temp = serialize_uint16 temp pack.len in
    let temp = serialize_uint32 temp pack.seqno in
    serialize_charbuffer temp pack.payload pck_data_size

pub serialize_ackpacket : AckPacket → List ℕ
serialize_ackpacket pack =
    let temp = serialize_uint16 [] pack.cksum in
    let temp = serialize_uint16 temp pack.len in serialize_uint32 temp pack.ackno

pub deserialize_uint16 : List ℕ → Option (ℕ × List ℕ)
deserialize_uint16 (b0 ∷ b1 ∷ buffer) =
    let value = u16 (b0 * 2 ^ 8) in some (bit_or value b1, buffer)
deserialize_uint16 _ = none

pub deserialize_uint32 : List ℕ → Option (ℕ × List ℕ)
deserialize_uint32 (b0 ∷ b1 ∷ b2 ∷ b3 ∷ buffer) =
    let value = u32 (b0 * 2 ^ 24) in
    let value = bit_or value (u32 (b1 * 2 ^ 16)) in
    let value = bit_or value (u32 (b2 * 2 ^ 8)) in some (bit_or value b3, buffer)
deserialize_uint32 _ = none

pub deserialize_charbuffer : List ℕ → ℕ → Option (List ℕ × List ℕ)
deserialize_charbuffer buffer num =
    if leb num (length buffer) then some (take num buffer, drop num buffer) else none

pub deserialize_packet : List ℕ → Option Packet
deserialize_packet buffer = do
  (check_sum, temp) ← deserialize_uint16 buffer
  (len, temp) ← deserialize_uint16 temp
  (seqno, temp) ← deserialize_uint32 temp
  (payload, temp) ← deserialize_charbuffer temp pck_data_size
  some (record { check_sum = check_sum; len = len; seqno = seqno; payload = payload })

pub deserialize_ackpacket : List ℕ → Option AckPacket
deserialize_ackpacket buffer = do
  (cksum, temp) ← deserialize_uint16 buffer
  (len, temp) ← deserialize_uint16 temp
  (ackno, temp) ← deserialize_uint32 temp
  some (record { cksum = cksum; len = len; ackno = ackno })
