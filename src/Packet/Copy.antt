-- ===== src/Packet/Copy.antt =====
-- packet_utils.cpp: building a packet and reading its data back.
use reliable_data_transfer.Base.{
  ℕ, zero, suc, [], replicate, ◌+◌, ◌%◌, ◌^◌, ◌≤◌, ◌<◌, ◌≡◌, ◌⊎◌, ◌↔◌, refl, true, List, ◌++◌, none,
  some, arith, length, take, drop, length-take, length-drop, length-append, length-replicate,
  take-append, ==_iff,
}
use reliable_data_transfer.Packet.{
  Packet, zero_bytes, memcpy, with_checksum, create_data_packet, create_core_packet, PacketCoreData,
  calculate_checksum, verify_checksum, extract_pure_data, pck_data_size,
}

-- The 512 bytes of an array that starts with `size` bytes of `bytes` and is zero beyond.
abbrev pub padded : List ℕ → ℕ → List ℕ
padded bytes size = take size bytes ++ drop size (zero_bytes pck_data_size)

pub length-zero_bytes : (n : ℕ) → length (zero_bytes n) ≡ n
unfolding zero_bytes
length-zero_bytes n = length-replicate n 0

pub zero_bytes_none : (n : ℕ) → n ≡ 0 → zero_bytes n ≡ []
unfolding zero_bytes replicate
zero_bytes_none zero e = refl
zero_bytes_none (suc n) e = absurd (omega arith)

pub memcpy_fits :
    (dst src : List ℕ) (n : ℕ)
    → n ≤ length dst
    → n ≤ length src
    → memcpy dst src n ≡ some (take n src ++ drop n dst)
unfolding memcpy
memcpy_fits dst src n h k = ground arith

pub memcpy_overruns :
    (dst src : List ℕ) (n : ℕ) → (length dst < n) ⊎ (length src < n) → memcpy dst src n ≡ none
unfolding memcpy
memcpy_overruns dst src n h = ground arith

pub length-padded :
    (bytes : List ℕ) (size : ℕ)
    → size ≤ 512
    → size ≤ length bytes
    → length (padded bytes size) ≡ 512
length-padded bytes size h k = omega (
  arith,
  length-append (take size bytes) (drop size (zero_bytes pck_data_size)),
  length-take size bytes,
  length-drop size (zero_bytes pck_data_size),
  length-zero_bytes pck_data_size,
)

-- What `create_data_packet` builds when the copy stays within both arrays.
unfoldable pub data_packet : List ℕ → ℕ → ℕ → Packet
data_packet bytes size seq_num =
    with_checksum
      (record { check_sum = 0; len = 8 + size; seqno = seq_num; payload = padded bytes size })

pub create_data_packet_fits :
    (bytes : List ℕ) (size seq_num : ℕ)
    → size ≤ 512
    → size ≤ length bytes
    → create_data_packet bytes size seq_num ≡ some (data_packet bytes size seq_num)
unfolding create_data_packet data_packet
create_data_packet_fits bytes size seq_num h k =
    rw (memcpy_fits (zero_bytes 512) bytes size (omega (arith, length-zero_bytes 512)) k)
      (let e : (8 + size) % 2 ^ 16 ≡ 8 + size = omega arith in rw e)

pub create_core_packet_fits :
    (core : PacketCoreData) (seq_num : ℕ)
    → core.size ≤ 512
    → core.size ≤ length core.payload
    → create_core_packet core seq_num ≡ some (data_packet core.payload core.size seq_num)
unfolding create_core_packet
create_core_packet_fits core seq_num h k =
    create_data_packet_fits core.payload core.size seq_num h k

-- The fields of the packet that is built.
pub data_packet_fields :
    (bytes : List ℕ) (size seq_num : ℕ)
    → ((data_packet bytes size seq_num).seqno ≡ seq_num)
      × ((data_packet bytes size seq_num).len ≡ 8 + size)
      × ((data_packet bytes size seq_num).payload ≡ padded bytes size)
      × ((data_packet bytes size seq_num).check_sum < 2 ^ 16)
unfolding data_packet with_checksum calculate_checksum
data_packet_fields bytes size seq_num = (refl, refl, refl, omega arith)

pub verify-data_packet :
    (bytes : List ℕ) (size seq_num : ℕ) → verify_checksum (data_packet bytes size seq_num) ≡ true
unfolding verify_checksum data_packet with_checksum calculate_checksum
verify-data_packet bytes size seq_num = (==_iff _ _).1 refl

pub extract-data_packet :
    (bytes : List ℕ) (size seq_num : ℕ)
    → size ≤ 512
    → size ≤ length bytes
    → extract_pure_data (data_packet bytes size seq_num)
      ≡ some (record { size = size; payload = padded bytes size })
unfolding extract_pure_data data_packet with_checksum
extract-data_packet bytes size seq_num h k = ground (
  arith,
  memcpy_fits (zero_bytes 512) (padded bytes size) size,
  length-zero_bytes 512,
  length-padded bytes size h k,
  take-append (take size bytes) (drop size (zero_bytes 512)) size,
  length-take size bytes,
)

-- A packet that was built verifies, carries its number and gives back the bytes that it was built
-- from, padded with zeros to 512 bytes.
pub extract-create :
    (bytes : List ℕ) (size seq_num : ℕ)
    → size ≤ 512
    → size ≤ length bytes
    → (pack : Packet) × (create_data_packet bytes size seq_num ≡ some pack)
      × (verify_checksum pack ≡ true)
      × (pack.seqno ≡ seq_num)
      × (pack.len ≡ 8 + size)
      × (extract_pure_data pack ≡ some (record { size = size; payload = padded bytes size }))
extract-create bytes size seq_num h k = (
  data_packet bytes size seq_num,
  create_data_packet_fits bytes size seq_num h k,
  verify-data_packet bytes size seq_num,
  (unfold data_packet with_checksum in refl),
  (unfold data_packet with_checksum in refl),
  extract-data_packet bytes size seq_num h k,
)

-- Reading the data out is undefined exactly for a length field below the header's or beyond what
-- a packet can hold; nothing else is checked before it is used.
pub extract_pure_data-eq-none_iff :
    (pack : Packet)
    → length pack.payload ≡ 512
    → (extract_pure_data pack ≡ none) ↔ ((pack.len < 8) ⊎ (520 < pack.len))
unfolding extract_pure_data memcpy
extract_pure_data-eq-none_iff pack long = ground (arith, length-zero_bytes 512)
