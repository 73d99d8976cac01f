-- ===== src/Socket/Wire.antt =====
-- What a server worker has handed to `sendto`.
use reliable_data_transfer.Base.{
  ℕ, Bool, true, false, List, [], ◌∷◌, ◌++◌, All, ◌≡◌, refl, Bool-cases, inl, inr,
}
use reliable_data_transfer.Serial.{serialize_packet}
use reliable_data_transfer.Socket.{Host, Net, has_data, send_packet, transmit, may_receive}
use reliable_data_transfer.Socket.Genuine.{IsSent, sent_packet}

-- The datagram is one of those that make up the transfer of the file.
abbrev pub IsOfTransfer : List ℕ → List ℕ → Type 0
IsOfTransfer file bytes = (i : ℕ) × IsSent file i × (bytes ≡ serialize_packet (sent_packet file i))

pub All-append {ℓ κ} :
    {A : Type ℓ} (P : A → Type κ) (xs : List A) (x : A) → All P xs → P x → All P (xs ++ x ∷ [])
All-append P [] x all here = (here, tt)
All-append P (y ∷ xs) x (first, all) here = (first, All-append P xs x all here)

module _ (h : Host) where
  pub transmit-IsOfTransfer :
      (file : List ℕ) (i : ℕ) (net : Net h)
      → IsSent file i
      → All (IsOfTransfer file) net.sent
      → All (IsOfTransfer file) (transmit h net (sent_packet file i)).1.sent
  unfolding transmit send_packet
  transmit-IsOfTransfer file i net sent all = elim (Bool-cases (Host.drop_packet h net.world).0) [
    | inl lost ↦ rw (lost, All) all
    | inr kept ↦ rw (kept, All) (All-append (IsOfTransfer file) net.sent _ all (i, sent, refl))
  ]

  pub may_receive-sent : (over : Bool) (net : Net h) → (may_receive h over net).1.sent ≡ net.sent
  unfolding may_receive has_data
  may_receive-sent true net = refl
  may_receive-sent false net = refl
