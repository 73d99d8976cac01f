-- ===== src/GoBackN/Server/Window.antt =====
-- GoBackServer.cpp: the packets that are out.
use reliable_data_transfer.Base.{
  ℕ, zero, suc, ◌+◌, ◌*◌, ◌≤◌, ◌<◌, ◌%◌, ◌^◌, false, List, [], ◌∷◌, ◌++◌, All, none, some, ◌≡◌,
  refl, sym, ap, inl, inr, arith, Bool-cases, length, leb, le→leb,
}
use reliable_data_transfer.Packet.{Packet}
use reliable_data_transfer.Socket.{Host}
use reliable_data_transfer.Socket.Genuine.{sent_packet}
use reliable_data_transfer.Socket.Wire.{IsOfTransfer}
use reliable_data_transfer.GoBackN.Server.{GoBackServer, slide}

-- Packets `base` to `base + n - 1` of the transfer.
unfoldable pub packets : List ℕ → ℕ → ℕ → List Packet
packets file base zero = []
packets file base (suc n) = sent_packet file base ∷ packets file (base + 1) n

pub packets_snoc :
    (file : List ℕ) (base n i : ℕ)
    → base + n ≡ i
    → packets file base n ++ sent_packet file i ∷ [] ≡ packets file base (suc n)
unfolding packets
packets_snoc file base zero i e = let same : base ≡ i = omega arith in rw same refl
packets_snoc file base (suc n) i e =
    ap (◌∷◌ (sent_packet file base)) (packets_snoc file (base + 1) n i (omega arith))

-- An acknowledgement in the window takes the packets up to it off the front; one of a packet that
-- is not out takes more than there is.
pub slide_within :
    (file : List ℕ) (ackno base n m : ℕ)
    → base ≤ ackno + 1
    → ackno + 1 + m ≡ base + n
    → base + n < 2 ^ 32
    → slide ackno base (packets file base n) ≡ some (ackno + 1, packets file (ackno + 1) m)
unfolding slide packets
slide_within file ackno base zero m le e small =
    let stop : leb base ackno ≡ false = ground arith in
    let none_left : 0 ≡ m = omega arith in
    let next : base ≡ ackno + 1 = omega arith in rw (stop, next, sym none_left) refl
slide_within file ackno base (suc n) m le e small = elim (Bool-cases (leb base ackno)) [
  | inl go ↦
      let no_wrap : (base + 1) % 2 ^ 32 ≡ base + 1 = omega arith in
      rw (go, no_wrap)
        (slide_within file ackno (base + 1) n m (ground arith) (omega arith) (omega arith))
  | inr stop ↦
      let next : base ≡ ackno + 1 = ground arith in
      let same : suc n ≡ m = omega arith in rw (stop, next, sym same) refl
]

pub slide_beyond :
    (file : List ℕ) (ackno base n : ℕ)
    → base + n ≤ ackno
    → base + n < 2 ^ 32
    → slide ackno base (packets file base n) ≡ none
unfolding slide packets
slide_beyond file ackno base zero le small = rw (le→leb base ackno (omega arith)) refl
slide_beyond file ackno base (suc n) le small =
    let no_wrap : (base + 1) % 2 ^ 32 ≡ base + 1 = omega arith in
    rw (le→leb base ackno (omega arith), no_wrap)
      (slide_beyond file ackno (base + 1) n (omega arith) (omega arith))

-- The packets that are out are those from the base to the next number, no more than the window,
-- and all that has been handed to `sendto` belongs to the transfer.
pub record IsSound (h : Host) (file : List ℕ) (window : ℕ) (s : GoBackServer h) : Type 0 where
  pub count : ℕ
  pub unacked : s.unacked_packet ≡ packets file s.base_seq_no count
  pub numbers : s.base_seq_no + count ≡ s.seq_no
  pub in_window : count ≤ window
  pub wire : All (IsOfTransfer file) s.net.sent

-- Every packet of the transfer, the empty one included, has gone out and has been acknowledged.
pub record IsFinished (h : Host) (file : List ℕ) (s : GoBackServer h) : Type 0 where
  pub none_out : s.unacked_packet ≡ []
  pub all_acked : s.base_seq_no ≡ s.seq_no
  pub whole : length file + 512 ≤ 512 * s.seq_no
  pub wire : All (IsOfTransfer file) s.net.sent
