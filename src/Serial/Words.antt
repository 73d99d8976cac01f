-- ===== src/Serial/Words.antt =====
-- serial.cpp: reading back a word that has been written.
use reliable_data_transfer.Base.{
  ℕ, ◌+◌, ◌*◌, ◌/◌, ◌%◌, ◌^◌, ◌<◌, bit_or, List, [], ◌++◌, some, ◌≡◌, refl, arith, ap, ap₂, ◌∙◌,
}
use reliable_data_transfer.Base.Bits.{bit_or_byte, bit_or-zero}
use reliable_data_transfer.Serial.{
  serialize_uint16, serialize_uint32, deserialize_uint16, deserialize_uint32,
}

-- `(hi << 8) | lo` is a sum.
pub join16 : (hi lo : ℕ) → hi < 256 → lo < 256 → bit_or (hi * 2 ^ 8 % 2 ^ 16) lo ≡ hi * 256 + lo
join16 hi lo h l = omega (arith, regroup, bit_or_byte hi 0 lo, bit_or-zero hi hi (omega arith))
  where
    regroup : bit_or (hi * 2 ^ 8 % 2 ^ 16) lo ≡ bit_or (256 * hi) (256 * 0 + lo)
    regroup = ap₂ bit_or (omega arith) (omega arith)

-- A reader's next byte, `shift` places up: `value | (byte << shift)`.
join_byte :
    (value byte x y : ℕ) → byte < 256 → x ≡ 256 * value → y ≡ byte → bit_or x y ≡ 256 * value + byte
join_byte value byte x y b p q =
    omega (arith, regroup, bit_or_byte value 0 byte, bit_or-zero value value (omega arith))
  where
    regroup : bit_or x y ≡ bit_or (256 * value) (256 * 0 + byte)
    regroup = ap₂ bit_or (omega arith) (omega arith)

scale_byte : (a b x y : ℕ) → x ≡ 256 * a → y ≡ 256 * b → bit_or x y ≡ 256 * bit_or a b
scale_byte a b x y p q = omega (arith, ap₂ bit_or p (q ∙ add_nothing), bit_or_byte a b 0)
  where
    add_nothing : 256 * b ≡ 256 * b + 0
    add_nothing = omega arith

pub join32 :
    (b0 b1 b2 b3 : ℕ)
    → b0 < 256
    → b1 < 256
    → b2 < 256
    → b3 < 256
    → bit_or
        (bit_or (bit_or (b0 * 2 ^ 24 % 2 ^ 32) (b1 * 2 ^ 16 % 2 ^ 32)) (b2 * 2 ^ 8 % 2 ^ 32))
        b3
      ≡ ((b0 * 256 + b1) * 256 + b2) * 256 + b3
join32 b0 b1 b2 b3 h0 h1 h2 h3 =
    join_byte ((b0 * 256 + b1) * 256 + b2) b3 _ b3 h3 upper refl ∙ omega arith
  where
    top : bit_or (b0 * 2 ^ 24 % 2 ^ 32) (b1 * 2 ^ 16 % 2 ^ 32) ≡ 256 * (256 * (256 * b0 + b1))
    top = omega (
      arith,
      scale_byte (65536 * b0) (256 * b1) (b0 * 2 ^ 24 % 2 ^ 32) (b1 * 2 ^ 16 % 2 ^ 32) (omega arith)
          (omega arith),
      scale_byte (256 * b0) b1 (65536 * b0) (256 * b1) (omega arith) refl,
      join_byte b0 b1 (256 * b0) b1 h1 refl refl,
    )

    upper :
        bit_or (bit_or (b0 * 2 ^ 24 % 2 ^ 32) (b1 * 2 ^ 16 % 2 ^ 32)) (b2 * 2 ^ 8 % 2 ^ 32)
        ≡ 256 * ((b0 * 256 + b1) * 256 + b2)
    upper = omega (
      arith,
      scale_byte (256 * (256 * b0 + b1)) b2 _ (b2 * 2 ^ 8 % 2 ^ 32) top (omega arith),
      join_byte (256 * b0 + b1) b2 (256 * (256 * b0 + b1)) b2 h2 refl refl,
    )

-- What a reader finds where a writer has written, with anything behind.
pub deserialize-serialize_uint16 :
    (value : ℕ) (rest : List ℕ)
    → value < 2 ^ 16
    → deserialize_uint16 (serialize_uint16 [] value ++ rest) ≡ some (value, rest)
unfolding deserialize_uint16 serialize_uint16
deserialize-serialize_uint16 value rest h =
    ap (λ v. some (v, rest))
      (join16 (value / 2 ^ 8 % 2 ^ 8) (value % 2 ^ 8) (omega arith) (omega arith) ∙ omega arith)

pub deserialize-serialize_uint32 :
    (value : ℕ) (rest : List ℕ)
    → value < 2 ^ 32
    → deserialize_uint32 (serialize_uint32 [] value ++ rest) ≡ some (value, rest)
unfolding deserialize_uint32 serialize_uint32
deserialize-serialize_uint32 value rest h =
    ap (λ v. some (v, rest))
      (join32 (value / 2 ^ 24 % 2 ^ 8) (value / 2 ^ 16 % 2 ^ 8) (value / 2 ^ 8 % 2 ^ 8)
          (value % 2 ^ 8) (omega arith) (omega arith) (omega arith) (omega arith)
        ∙ omega arith)
