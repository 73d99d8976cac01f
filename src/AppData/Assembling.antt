-- ===== src/AppData/Assembling.antt =====
-- web_models/app_data.cpp: a message that is broken and assembled again.
use reliable_data_transfer.Base.{
  ℕ, zero, suc, ◌+◌, ◌-◌, ◌^◌, ◌%◌, ◌≤◌, ◌<◌, min, false, ◌||◌, List, [], ◌∷◌, ◌++◌, some, ◌≡◌,
  refl, sym, ap, ◌∙◌, inl, inr, arith, ltb, ◌==◌, u16, length, take, drop, length-take, length-drop,
  take-append, take-append-take-drop, drop-drop, take_zero, take_all, drop_zero, Bool-cases, subst,
}
use reliable_data_transfer.Packet.{Packet, zero_bytes, memcpy}
use reliable_data_transfer.Packet.Copy.{memcpy_fits, length-zero_bytes}
use reliable_data_transfer.AppData.{
  AppData, break_from, break_app_message, message_length, copies, assemble_app_message,
}

-- The packets carry these bytes, and their lengths add up to their number.
pub record Carries (bytes : List ℕ) (rem : ℕ) (pckts : List Packet) : Type 0 where
  pub copied : copies pckts ≡ some bytes
  pub long : (len : ℕ) → len + rem < 2 ^ 32 → message_length pckts len ≡ len + rem

pub one_packet :
    (m k : ℕ) (bytes rest : List ℕ) (pack : Packet) (pckts : List Packet)
    → m ≤ 512
    → pack.len ≡ 8 + m
    → take m pack.payload ≡ bytes
    → Carries rest k pckts
    → Carries (bytes ++ rest) (m + k) (pack ∷ pckts)
unfolding copies message_length
one_packet m k bytes rest pack pckts small long same c =
    let size : (pack.len - 8) ≡ m = omega arith in
    let within : (ltb pack.len 8 || ltb 520 pack.len) ≡ false = ground arith in
    record {
      copied = rw (within, c.copied, size, same) refl;
      long = λ len lt.
          let added : (len + (pack.len + 2 ^ 32 - 8) % 2 ^ 32) % 2 ^ 32 ≡ len + m = omega arith in
          rw added (omega (arith, c.long (len + m) (omega arith)));
    }

pub assembled :
    (message : AppData) (pckts : List Packet)
    → length message.payload ≡ message.len_data
    → message.len_data < 2 ^ 32
    → Carries message.payload message.len_data pckts
    → assemble_app_message pckts ≡ some message
unfolding assemble_app_message
assembled message pckts whole small c =
    let sum : message_length pckts 0 ≡ message.len_data = omega (arith, c.long 0 (omega arith)) in
    let room : ltb message.len_data (length message.payload) ≡ false = ground arith in
    rw (c.copied, sum, room) refl

module _ (garbage : ℕ → Packet) (header : (i : ℕ) → Packet.len (garbage i) ≡ 8) where
  nothing_left : (rem : ℕ) (bytes : List ℕ) → rem ≡ 0 → Carries (take rem bytes) rem []
  unfolding copies message_length
  nothing_left rem bytes e =
      rw e (record { copied = ap some (sym (take_zero bytes)); long = λ len lt. omega arith })

  -- The packet of one round.
  abbrev new_packet : ℕ → ℕ → List ℕ → Packet
  new_packet sent m bytes = record (garbage sent) {
    len = u16 (Packet.len (garbage sent) + m);
    payload = bytes;
  }

  break_from_round :
      (fuel sent rem : ℕ) (payload bytes : List ℕ) (pckts : List Packet)
      → (rem == 0) ≡ false
      → sent + rem < 2 ^ 32
      → memcpy (zero_bytes 512) (drop sent payload) (min 512 rem) ≡ some bytes
      → break_from fuel garbage payload (sent + min 512 rem) (rem - min 512 rem) ≡ some pckts
      → break_from (suc fuel) garbage payload sent rem
        ≡ some (new_packet sent (min 512 rem) bytes ∷ pckts)
  unfolding break_from
  break_from_round fuel sent rem payload bytes pckts more small copied broken =
      let no_wrap : (sent + min 512 rem) % 2 ^ 32 ≡ sent + min 512 rem = omega arith in
      rw (more, break_from, no_wrap, copied, broken) refl

  break_from-Carries :
      (fuel : ℕ) (payload : List ℕ) (sent rem : ℕ)
      → rem ≤ fuel
      → length payload ≡ sent + rem
      → sent + rem < 2 ^ 32
      → (pckts : List Packet) × (break_from fuel garbage payload sent rem ≡ some pckts)
        × Carries (take rem (drop sent payload)) rem pckts
  unfolding break_from
  break_from-Carries zero payload sent rem le long small =
      ([], refl, nothing_left rem (drop sent payload) (omega arith))
  break_from-Carries (suc fuel) payload sent rem le long small = elim (Bool-cases (rem == 0)) [
    | inl over ↦
        ([], rw (over, break_from) refl, nothing_left rem (drop sent payload) (ground arith))
    | inr more ↦
        let m = min 512 rem in
        let some_left : 0 < rem = ground arith in
        let here = drop sent payload in
        let long_here : length here ≡ rem = omega (arith, length-drop sent payload) in
        let (pckts, broken, carried) =
          break_from-Carries fuel payload (sent + m) (rem - m) (omega arith) (omega arith)
            (omega arith) in
        let bytes : List ℕ = take m here ++ drop m (zero_bytes 512) in
        let copied : memcpy (zero_bytes 512) here m ≡ some bytes =
          memcpy_fits (zero_bytes 512) here m (omega (arith, length-zero_bytes 512))
            (omega arith) in
        let pack = new_packet sent m bytes in
        let taken : take m bytes ≡ take m here =
          take-append (take m here) _ m (omega (arith, length-take m here)) in
        let whole : take m here ++ take (rem - m) (drop (sent + m) payload) ≡ take rem here =
          ap (λ later. take m here ++ take (rem - m) later)
            (sym (drop-drop sent m (sent + m) payload refl))
          ∙ take-append-take-drop m (rem - m) rem here (omega arith) in
        let sum : m + (rem - m) ≡ rem = omega arith in
        (
          pack ∷ pckts,
          break_from_round fuel sent rem payload bytes pckts more small copied broken,
          subst (λ k. Carries (take rem here) k (pack ∷ pckts)) sum
              (subst (λ b. Carries b (m + (rem - m)) (pack ∷ pckts)) whole
                (one_packet m (rem - m) (take m here) _ pack pckts (omega arith)
                  (omega (arith, header sent)) taken carried)),
        )
  ]

  -- If the header of every new packet happens to hold the length 8 in memory, a message of less than
  -- 2 ^ 32 bytes is broken into packets from which it is assembled again. The functions do not set the
  -- length themselves.
  pub assemble-break :
      (message : AppData)
      → length message.payload ≡ message.len_data
      → message.len_data < 2 ^ 32
      → (pckts : List Packet) × (break_app_message garbage message ≡ some pckts)
        × (assemble_app_message pckts ≡ some message)
  unfolding break_app_message
  assemble-break message whole small =
      let fits : message.len_data % 2 ^ 32 ≡ message.len_data = omega arith in
      let (pckts, broken, c) =
        break_from-Carries message.len_data message.payload 0 message.len_data (omega arith)
          (omega arith) (omega arith) in
      let all : take message.len_data (drop 0 message.payload) ≡ message.payload =
        ap (take message.len_data) (drop_zero message.payload)
        ∙ take_all message.len_data message.payload (omega arith) in
      (
        pckts,
        ap (λ n. break_from n garbage message.payload 0 n) fits ∙ broken,
        assembled message pckts whole small
            (subst (λ bytes. Carries bytes message.len_data pckts) all c),
      )
