-- ===== src/Programs/Requests.antt =====
-- client.cpp and server.cpp: the request for a file, from the one program to the other.
use reliable_data_transfer.Base.{
  ℕ, zero, suc, ◌+◌, ◌-◌, ◌≤◌, ◌<◌, ◌%◌, ◌^◌, false, List, [], ◌∷◌, ◌++◌, All, none, some, ◌⊎◌, ◌↔◌,
  ◌≡◌, ◌≢◌, refl, ap, subst, sym, some_inj, ◌∙◌, inl, inr, arith, length, length-append, take, drop,
  take-append, ltb, ◌==◌, ne→==, lt→ltb, take_all, replicate, Bool-cases,
}
use native.Mathlib.Decide.{dec_lt}
use reliable_data_transfer.Packet.{Packet, zero_bytes}
use reliable_data_transfer.Packet.Copy.{
  length-padded, memcpy_fits, memcpy_overruns, length-zero_bytes, data_packet, data_packet_fields,
  create_data_packet_fits,
}
use reliable_data_transfer.Serial.{serialize_packet}
use reliable_data_transfer.Serial.Datagrams.{
  IsPacket, length-serialize_packet, deserialize-serialize_packet,
}
use reliable_data_transfer.Socket.{Recv, fill_buffer}
use reliable_data_transfer.Programs.ClientProgram.{request_packet}
use reliable_data_transfer.Programs.ServerProgram.{receive_request, c_string, request_path}

-- No byte of the text is zero.
abbrev pub IsText : List ℕ → Type 0
IsText text = All (λ b. b ≢ 0) text

c_string-append : (text rest : List ℕ) → IsText text → c_string (text ++ 0 ∷ rest) ≡ some text
unfolding c_string
c_string-append [] rest t = refl
c_string-append (b ∷ text) rest (nonzero, t) =
    rw (c_string-append text rest t, ne→== b 0 nonzero) refl

-- A zero anywhere ends the text.
c_string_total : (xs ys : List ℕ) → (text : List ℕ) × (c_string (xs ++ 0 ∷ ys) ≡ some text)
unfolding c_string
c_string_total [] ys = ([], refl)
c_string_total (b ∷ xs) ys =
    let (text, e) = c_string_total xs ys in
    elim (Bool-cases (b == 0)) [
      | inl ends ↦ ([], rw ends refl)
      | inr more ↦ (b ∷ text, rw (more, e) refl)
    ]

-- The array that is cleared keeps a zero behind the bytes that are copied into it.
drop-zero_bytes : (n j k : ℕ) → n + k + 1 ≡ j → drop n (zero_bytes j) ≡ 0 ∷ zero_bytes k
unfolding drop zero_bytes replicate
drop-zero_bytes n zero k e = absurd (omega arith)
drop-zero_bytes zero (suc j) k e = let same : j ≡ k = omega arith in rw same refl
drop-zero_bytes (suc n) (suc j) k e = drop-zero_bytes n j k (omega arith)

-- What the server makes of the packet with so many bytes.
request_path-copied :
    (pck : Packet) (n : ℕ)
    → pck.len ≡ 8 + n
    → n ≤ 512
    → length pck.payload ≡ 512
    → request_path pck ≡ c_string (take n pck.payload ++ 0 ∷ zero_bytes (512 - n))
unfolding request_path
request_path-copied pck n long le full =
    let size : (pck.len - 8) ≡ n = omega arith in
    let test : ltb pck.len 8 ≡ false = ground arith in
    rw
      (
        test,
        size,
        memcpy_fits (zero_bytes 513) pck.payload n (omega (arith, length-zero_bytes 513))
            (omega arith),
        drop-zero_bytes n 513 (512 - n) (omega arith),
      )
      refl

-- For a request whose data has 512 bytes, as every packet that is read has, finding the path is
-- undefined where the length in its header is below that of a header or beyond that of a datagram,
-- and only there: the server does not check it.
pub request_path-eq-none_iff :
    (pck : Packet)
    → length pck.payload ≡ 512
    → (request_path pck ≡ none) ↔ ((pck.len < 8) ⊎ (520 < pck.len))
unfolding request_path
request_path-eq-none_iff pck full = (
  λ fault. elim (dec_lt pck.len 8) [
    | yes short ↦ inl short
    | no header ↦ elim (dec_lt 520 pck.len) [
      | yes long ↦ inr long
      | no within ↦
          let n = pck.len - 8 in
          let (text, e) = c_string_total (take n pck.payload) (zero_bytes (512 - n)) in
          let found = request_path-copied pck n (omega arith) (omega arith) full in absurd cc
    ]
  ],
  λ wrong. elim wrong [
    | inl short ↦ ground arith
    | inr long ↦
        let header : ltb pck.len 8 ≡ false = ground arith in
        rw (header, memcpy_overruns (zero_bytes 513) pck.payload (pck.len - 8) (inr (omega arith)))
          refl
  ],
)

-- The request for a file whose name has at most 512 bytes, none of them zero, and no more: it is
-- built, and when its datagram arrives the server reads the packet and finds the same name.
pub request-path :
    (filename : List ℕ) (r : Recv)
    → IsText filename
    → length filename ≤ 512
    → (pack : Packet) × (request_packet filename ≡ some pack)
      × (r.bytes ≡ serialize_packet pack
          → (receive_request r ≡ some (some pack)) × (request_path pack ≡ some filename))
unfolding request_packet receive_request fill_buffer
request-path filename r text short = (
  pack,
  rw no_wrap (
      create_data_packet_fits named (length filename) 0 short
        (omega (arith, length-append filename (0 ∷ [])))),
  λ same. (
    read same,
    request_path-copied pack (length filename) long short full
        ∙ ap (λ bytes. c_string (bytes ++ 0 ∷ zero_bytes (512 - length filename))) copied
        ∙ c_string-append filename (zero_bytes (512 - length filename)) text,
  ),
)
  where
    named : List ℕ
    named = filename ++ 0 ∷ []

    pack : Packet
    pack = data_packet named (length filename) 0

    no_wrap : length filename % 2 ^ 16 ≡ length filename
    no_wrap = omega arith

    long : pack.len ≡ 8 + length filename
    long = (data_packet_fields named (length filename) 0).1

    full : length pack.payload ≡ 512
    full =
        ap (length {0}) (data_packet_fields named (length filename) 0).2
        ∙ length-padded named (length filename) short
            (omega (arith, length-append filename (0 ∷ [])))

    taken : take (length filename) named ≡ filename
    taken = take-append filename (0 ∷ []) (length filename) refl

    copied : take (length filename) pack.payload ≡ filename
    copied =
        ap (take (length filename)) (data_packet_fields named (length filename) 0).2
        ∙ take-append (take (length filename) named) _ (length filename) (ap (length {0}) taken)
        ∙ taken

    fits : IsPacket pack
    fits = record {
      check_sum_fits = (data_packet_fields named (length filename) 0).3;
      len_fits = omega (arith, long);
      seqno_fits = omega (arith, (data_packet_fields named (length filename) 0).0);
      full = full;
    }

    read : r.bytes ≡ serialize_packet pack → receive_request r ≡ some (some pack)
    read same =
        let bytes = length-serialize_packet pack full in
        rw
          (
            same,
            lt→ltb 0 (length (serialize_packet pack)) (omega (arith, bytes)),
            take_all 520 (serialize_packet pack) (omega (arith, bytes)),
            deserialize-serialize_packet pack _ fits,
          )
          refl

-- The same for a packet that is known.
pub request-path_of :
    (filename : List ℕ) (pack : Packet) (r : Recv)
    → IsText filename
    → length filename ≤ 512
    → request_packet filename ≡ some pack
    → r.bytes ≡ serialize_packet pack
    → (receive_request r ≡ some (some pack)) × (request_path pack ≡ some filename)
request-path_of filename pack r text short made same =
    let (asked, built, arrives) = request-path filename r text short in
    let it : asked ≡ pack = some_inj (sym built ∙ made) in
    subst (λ p. (receive_request r ≡ some (some p)) × (request_path p ≡ some filename)) it
      (arrives (same ∙ ap serialize_packet (sym it)))
