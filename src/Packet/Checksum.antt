-- ===== src/Packet/Checksum.antt =====
-- packet_utils.cpp: what the checksum sees. Its low byte is a plain sum modulo 256.
use reliable_data_transfer.Base.{
  ℕ, zero, suc, ◌+◌, ◌*◌, ◌/◌, ◌%◌, ◌^◌, ◌≤◌, ◌<◌, ◌≡◌, ◌≢◌, refl, true, false, List, arith, get_or,
  set, length, get_or-set_self, get_or-set_ne, bit_and,
}
use native.Mathlib.Decide.{dec_lt}
use reliable_data_transfer.Base.Bits.{bit_and_low_byte, bit_or_256_pos}
use reliable_data_transfer.Packet.{
  Packet, AckPacket, fold_carry, data_word, add_words, header_sum, calculate_checksum,
  calculate_checksum_ack, verify_checksum,
}

fold_carry_low : (s : ℕ) → fold_carry s % 256 ≡ (s + 1) % 256
unfolding fold_carry
fold_carry_low s = ground (arith, bit_or_256_pos s, bit_and_low_byte s 254)

-- The first bytes of the words from index `i` on, added up.
pub even_byte_sum : (rounds i : ℕ) → List ℕ → ℕ
even_byte_sum zero i payload = 0
even_byte_sum (suc rounds) i payload =
    get_or payload (2 * i) 0 + even_byte_sum rounds (i + 1) payload

add_words_low :
    (n i : ℕ) (payload : List ℕ) (s : ℕ)
    → add_words n i payload s % 256 ≡ (s + even_byte_sum n i payload + n) % 256
unfolding add_words data_word even_byte_sum
add_words_low zero i payload s = omega arith
add_words_low (suc n) i payload s = omega (
  arith,
  add_words_low n (i + 1) payload (fold_carry ((s + data_word payload i) % 2 ^ 32)),
  fold_carry_low ((s + data_word payload i) % 2 ^ 32),
)

header_sum_low :
    (len number : ℕ)
    → header_sum len number % 256 ≡ (len + number / 2 ^ 16 + number % 256 + 2) % 256
unfolding header_sum
header_sum_low len number = omega (
  arith,
  fold_carry_low ((len + number / 2 ^ 16) % 2 ^ 32),
  fold_carry_low ((fold_carry ((len + number / 2 ^ 16) % 2 ^ 32) + bit_and number 0x00FF) % 2 ^ 32),
  bit_and_low_byte number 0,
)

-- The low byte of a packet's checksum is the sum, modulo 256, of the length, of the upper half
-- and the low byte of the sequence number, of the 32 bytes at even indices below 64, and of 34.
pub calculate_checksum_low :
    (pack : Packet)
    → calculate_checksum pack % 256
      ≡ (pack.len + pack.seqno / 2 ^ 16 + pack.seqno % 256 + even_byte_sum 32 0 pack.payload + 34)
        % 256
unfolding calculate_checksum
calculate_checksum_low pack = omega (
  arith,
  add_words_low 32 0 pack.payload (header_sum pack.len pack.seqno),
  header_sum_low pack.len pack.seqno,
)

pub calculate_checksum_ack_low :
    (pack : AckPacket)
    → calculate_checksum_ack pack % 256
      ≡ (pack.len + pack.ackno / 2 ^ 16 + pack.ackno % 256 + 2) % 256
unfolding calculate_checksum_ack
calculate_checksum_ack_low pack = omega (arith, header_sum_low pack.len pack.ackno)

even_byte_sum-set_before :
    (n i j v : ℕ) (payload : List ℕ)
    → j < i
    → even_byte_sum n i (set payload (2 * j) v) ≡ even_byte_sum n i payload
unfolding even_byte_sum
even_byte_sum-set_before zero i j v payload h = refl
even_byte_sum-set_before (suc n) i j v payload h = omega (
  arith,
  even_byte_sum-set_before n (i + 1) j v payload (omega arith),
  get_or-set_ne payload (2 * j) (2 * i) v 0 (omega arith),
)

even_byte_sum-set :
    (n i j v : ℕ) (payload : List ℕ)
    → i ≤ j
    → j < i + n
    → 2 * j < length payload
    → even_byte_sum n i (set payload (2 * j) v) + get_or payload (2 * j) 0
      ≡ even_byte_sum n i payload + v
unfolding even_byte_sum
even_byte_sum-set zero i j v payload lo hi fits = absurd (omega arith)
even_byte_sum-set (suc n) i j v payload lo hi fits = elim (dec_lt i j) [
  | yes later ↦ omega (
    arith,
    even_byte_sum-set n (i + 1) j v payload (omega arith) (omega arith) fits,
    get_or-set_ne payload (2 * j) (2 * i) v 0 (omega arith),
  )
  | no here ↦
      let e : i ≡ j = omega arith in
      rw e (
        omega (
          arith,
          even_byte_sum-set_before n (j + 1) j v payload (omega arith),
          get_or-set_self payload (2 * j) v 0 fits,
        ))
]

-- A byte below index 64, at an even index, cannot change alone without the checksum noticing.
pub verify_checksum_detects :
    (pack : Packet) (j v : ℕ)
    → length pack.payload ≡ 512
    → j < 32
    → v < 256
    → get_or pack.payload (2 * j) 0 < 256
    → v ≢ get_or pack.payload (2 * j) 0
    → verify_checksum pack ≡ true
    → verify_checksum (record pack { payload = set pack.payload (2 * j) v }) ≡ false
unfolding verify_checksum
verify_checksum_detects pack j v long low byte old_byte change good = ground (
  arith,
  calculate_checksum_low pack,
  calculate_checksum_low (record pack { payload = set pack.payload (2 * j) v }),
  even_byte_sum-set 32 0 j v pack.payload (omega arith) low (omega arith),
)
