-- ===== src/Packet.antt =====
-- web_models/packet.h, ack_packet.h and packet_utils.cpp: the datagrams and their checksums.
-- A char array is the list of its bytes. `none` stands for undefined behaviour, which is here a
-- `memcpy` that leaves one of its arrays. Words are read from the payload as a little-endian
-- machine reads them.
pub mod Checksum
pub mod Blind
pub mod Copy
mod Tests
use reliable_data_transfer.Base.{
  ℕ, zero, suc, ◌+◌, ◌-◌, ◌*◌, ◌/◌, ◌%◌, ◌^◌, bit_and, bit_or, Bool, List, ◌++◌, Option, none, some,
  ltb, leb, ◌==◌, ◌&&◌, if◌then◌else◌, ◌>>=◌, u16, u32, length, get_or, take, drop, replicate,
}

-- PCK_DATA_SIZE and PCK_HEADER_SIZE.
abbrev pub pck_data_size : ℕ
pck_data_size = 512

abbrev pub pck_header_size : ℕ
pck_header_size = 8

pub record Packet : Type 0 where
  pub check_sum : ℕ
  pub len : ℕ
  pub seqno : ℕ
  pub payload : List ℕ

pub record PacketCoreData : Type 0 where
  pub size : ℕ
  pub payload : List ℕ

pub record AckPacket : Type 0 where
  pub cksum : ℕ
  pub len : ℕ
  pub ackno : ℕ

-- `memset(buff, 0, n)`.
unfoldable pub zero_bytes : ℕ → List ℕ
zero_bytes n = replicate n 0

pub memcpy : List ℕ → List ℕ → ℕ → Option (List ℕ)
memcpy dst src n =
    if leb n (length dst) && leb n (length src) then some (take n src ++ drop n dst) else none

-- `if (sum | 0x0100) { sum &= 0xFEFF; sum += 1; }`.
unfoldable pub fold_carry : ℕ → ℕ
fold_carry sum = if bit_or sum 0x0100 == 0 then sum else u32 (bit_and sum 0xFEFF + 1)

-- `dum_ptr[i]`, for `uint16_t *dum_ptr` at the start of the payload.
pub data_word : List ℕ → ℕ → ℕ
data_word payload i = get_or payload (2 * i) 0 + 256 * get_or payload (2 * i + 1) 0

-- The loop over the words, with `rounds` words left to add from index `i` on.
pub add_words : (rounds i : ℕ) → List ℕ → ℕ → ℕ
add_words zero i payload sum = sum
add_words (suc rounds) i payload sum =
    add_words rounds (i + 1) payload (fold_carry (u32 (sum + data_word payload i)))

-- What both checksums do with the two header fields.
unfoldable pub header_sum : ℕ → ℕ → ℕ
header_sum len number =
    fold_carry (u32 (fold_carry (u32 (len + number / 2 ^ 16)) + bit_and number 0x00FF))

pub calculate_checksum : Packet → ℕ
calculate_checksum pack =
    u16 (add_words (pck_data_size / 16) 0 pack.payload (header_sum pack.len pack.seqno))

unfoldable pub calculate_checksum_ack : AckPacket → ℕ
calculate_checksum_ack pack = u16 (header_sum pack.len pack.ackno)

pub verify_checksum : Packet → Bool
verify_checksum pack = pack.check_sum == calculate_checksum pack

unfoldable pub verify_checksum_ack : AckPacket → Bool
verify_checksum_ack pack = pack.cksum == calculate_checksum_ack pack

-- The packet before its checksum is set, and with it.
unfoldable pub with_checksum : Packet → Packet
with_checksum pck = record pck { check_sum = calculate_checksum pck }

pub create_data_packet : List ℕ → ℕ → ℕ → Option Packet
create_data_packet bytes size seq_num = do
  payload ← memcpy (zero_bytes pck_data_size) bytes size
  some (
      with_checksum (record {
        check_sum = 0;
        len = u16 (pck_header_size + size);
        seqno = seq_num;
        payload = payload;
      }))

-- The second overload.
pub create_core_packet : PacketCoreData → ℕ → Option Packet
create_core_packet core_data seq_num = create_data_packet core_data.payload core_data.size seq_num

unfoldable pub create_ack_packet : ℕ → AckPacket
create_ack_packet seq_num =
    let pck : AckPacket = record { cksum = 0; len = pck_header_size; ackno = seq_num } in
    record pck { cksum = calculate_checksum_ack pck }

-- `pack->len - 8` is a negative `int` below 8, so a `size_t` beyond every array.
pub extract_pure_data : Packet → Option PacketCoreData
extract_pure_data pack = if ltb pack.len pck_header_size then none else do
  bytes ← memcpy (zero_bytes pck_data_size) pack.payload (pack.len - pck_header_size)
  some (record { size = u16 (pack.len - pck_header_size); payload = bytes })
