-- ===== src/Packet/Blind.antt =====
-- packet_utils.cpp: what the checksum does not see.
use reliable_data_transfer.Base.{
  ℕ, zero, suc, ◌+◌, ◌*◌, ◌/◌, ◌%◌, ◌^◌, ◌≤◌, ◌<◌, ◌≡◌, refl, true, List, arith, get_or, ap₂, ◌∙◌,
  sym,
}
use reliable_data_transfer.Base.Bits.{bit_and_byte}
use reliable_data_transfer.Packet.{
  Packet, fold_carry, data_word, add_words, header_sum, calculate_checksum, verify_checksum,
}

-- The two payloads have the same first 64 bytes.
abbrev pub SameHead : List ℕ → List ℕ → Type 0
SameHead xs ys = (i : ℕ) → i < 64 → get_or xs i 0 ≡ get_or ys i 0

add_words-SameHead :
    (n i : ℕ) (xs ys : List ℕ) (s : ℕ)
    → SameHead xs ys
    → i + n ≤ 32
    → add_words n i xs s ≡ add_words n i ys s
unfolding add_words
add_words-SameHead zero i xs ys s same h = refl
add_words-SameHead (suc n) i xs ys s same h =
    rw (same_word) (add_words-SameHead n (i + 1) xs ys _ same (omega arith))
  where
    same_word : data_word xs i ≡ data_word ys i
    same_word =
        unfold data_word in
        omega (arith, same (2 * i) (omega arith), same (2 * i + 1) (omega arith))

header_sum-blind :
    (len s t : ℕ)
    → s / 2 ^ 16 ≡ t / 2 ^ 16
    → s % 256 ≡ t % 256
    → header_sum len s ≡ header_sum len t
unfolding header_sum
header_sum-blind len s t high low =
    ap₂ (λ x y. fold_carry ((fold_carry ((len + x) % 2 ^ 32) + y) % 2 ^ 32)) high
      (bit_and_byte s ∙ low ∙ sym (bit_and_byte t))

-- A packet that verifies still verifies after any change of the second lowest byte of its sequence
-- number and of the payload from index 64 on, so such errors go unnoticed.
pub verify_checksum_blind :
    (pack : Packet) (seqno : ℕ) (payload : List ℕ)
    → pack.seqno / 2 ^ 16 ≡ seqno / 2 ^ 16
    → pack.seqno % 256 ≡ seqno % 256
    → SameHead pack.payload payload
    → verify_checksum pack ≡ true
    → verify_checksum (record pack { seqno = seqno; payload = payload }) ≡ true
unfolding verify_checksum calculate_checksum
verify_checksum_blind pack seqno payload high low same good = ground (
  arith,
  add_words-SameHead 32 0 pack.payload payload (header_sum pack.len pack.seqno) same (omega arith),
  header_sum-blind pack.len pack.seqno seqno high low,
)
