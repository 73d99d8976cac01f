-- ===== src/SelectiveRepeat/Server/Order.antt =====
-- SelectiveRepeatServer.cpp: what holds of the worker between its steps.
use reliable_data_transfer.Base.{
  ℕ, ◌+◌, ◌*◌, ◌≤◌, ◌<◌, true, List, [], ◌∷◌, All, none, some, ◌≡◌, ap, ◌∙◌, ◌⊎◌, inl, inr, arith,
  if-both, length, ◌&&◌, ◌==◌,
}
use reliable_data_transfer.Base.Maps.{
  lookup, has, insert, erase, lookup-erase, has-lookup-insert, has-lookup-erase,
}
use native.Mathlib.Decide.{ℕ_discrete}
use reliable_data_transfer.Packet.{Packet}
use reliable_data_transfer.DataManagers.Reading.{Reads}
use reliable_data_transfer.Socket.{Host}
use reliable_data_transfer.Socket.Genuine.{Fits, IsSent, sent_packet}
use reliable_data_transfer.Socket.Wire.{IsOfTransfer}
use reliable_data_transfer.Run.{or_fault, Ensures}
use reliable_data_transfer.SelectiveRepeat.Server.{
  AckSet, forward, is_in, remove, SelectiveRepeatServer, take_off, take_off_freed,
}
use reliable_data_transfer.SelectiveRepeat.Server.Acks.{
  Below, Forwarded, erase-Below, forward-Forwarded,
}

-- Each number in the window waits for its acknowledgement or has it.
abbrev pub Covers : ℕ → ℕ → List (ℕ × ℕ) → AckSet → Type 0
Covers base seq times acks =
    (i : ℕ) → base ≤ i → i < seq → (has (lookup i times) ≡ true) ⊎ (has (lookup i acks) ≡ true)

-- The packets that are kept for sending again are packets of the transfer.
abbrev pub Stores : List ℕ → List (ℕ × Packet) → Type 0
Stores file packets =
    (i : ℕ) (p : Packet) → lookup i packets ≡ some p → (p ≡ sent_packet file i) × IsSent file i

-- The next number is no more than the window from the base, and all that has been handed to
-- `sendto` belongs to the transfer.
pub record IsSound (h : Host) (file : List ℕ) (window : ℕ) (s : SelectiveRepeatServer h)
    : Type 0 where
  pub low : s.base_seq_no ≤ s.seq_no
  pub in_window : s.seq_no ≤ s.base_seq_no + window
  pub wire : All (IsOfTransfer file) s.net.sent

-- Every packet of the transfer, the empty one included, has gone out and has been acknowledged.
pub record IsFinished (h : Host) (file : List ℕ) (s : SelectiveRepeatServer h) : Type 0 where
  pub all_acked : s.base_seq_no ≡ s.seq_no
  pub whole : length file + 512 ≤ 512 * s.seq_no
  pub wire : All (IsOfTransfer file) s.net.sent

-- The invariant, with a lower bound for the next number.
pub record InOrder (h : Host) (file : List ℕ) (window least : ℕ) (s : SelectiveRepeatServer h)
    : Type 0 where
  pub low : s.base_seq_no ≤ s.seq_no
  pub in_window : s.seq_no ≤ s.base_seq_no + window
  pub reached : least ≤ s.seq_no
  pub timed : Below s.seq_no s.seqnums_sent
  pub acked : Below s.seq_no s.acks
  pub open_at : lookup s.base_seq_no s.acks ≡ none
  pub order : All (λ i. i < s.seq_no) s.send_order
  pub covers : Covers s.base_seq_no s.seq_no s.seqnums_sent s.acks
  pub stores : Stores file s.data_sent
  pub reads : Reads file s.seq_no s.data_feeder
  pub wire : All (IsOfTransfer file) s.net.sent

pub remove-All {κ} : (P : ℕ → Type κ) (i : ℕ) (xs : List ℕ) → All P xs → All P (remove i xs)
unfolding remove
remove-All P i [] a = tt
remove-All P i (x ∷ xs) (p, a) =
    if-both (All P) (x == i) xs (x ∷ remove i xs) (λ _. a) (λ _. (p, remove-All P i xs a))

module _ (h : Host) (file : List ℕ) (fits : Fits file) (window least : ℕ) where
  -- An acknowledged packet goes, and the window moves on.
  pub take_off-InOrder :
      (ackno : ℕ) (s : SelectiveRepeatServer h)
      → InOrder h file window least s
      → ackno < s.seq_no
      → Ensures
          (IsSound h file window)
          (InOrder h file window least)
          (or_fault (take_off h ackno s))
  unfolding take_off or_fault
  take_off-InOrder ackno s p below =
      if-both (λ o. Ensures (IsSound h file window) (InOrder h file window least) (or_fault o))
        (has (lookup ackno s.data_sent) && is_in ackno s.send_order) _ _
        (λ _. record {
          low = f.high;
          in_window = omega (arith, f.low, p.in_window);
          reached = p.reached;
          timed = erase-Below ackno s.seq_no s.seqnums_sent p.timed;
          acked = f.below;
          open_at = f.open_at;
          order = remove-All (λ i. i < s.seq_no) ackno s.send_order p.order;
          covers = covers;
          stores = λ i q e. p.stores i q (ground (arith, lookup-erase ackno i s.data_sent));
          reads = p.reads;
          wire = p.wire;
        })
        (λ _. tt)
    where
      acks : AckSet
      acks = insert ackno tt s.acks

      moved : ℕ × AckSet
      moved = forward (length acks) s.base_seq_no acks

      f : Forwarded s.base_seq_no s.seq_no acks moved
      f =
          forward-Forwarded (length acks) s.base_seq_no s.seq_no acks (omega arith) p.low
            (omega (arith, p.reads.most))
            (λ i e. elim (ℕ_discrete ackno i) [
              | yes same ↦ omega arith
              | no other ↦ p.acked i (ground (arith, has-lookup-insert ackno i tt s.acks))
            ])

      covers : Covers moved.0 s.seq_no (erase ackno s.seqnums_sent) moved.1
      covers i le lt = elim (p.covers i (omega (arith, f.low)) lt) [
        | inl waits ↦ elim (ℕ_discrete ackno i) [
          | yes same ↦
              inr (ap has (f.kept i le) ∙ ground (arith, has-lookup-insert ackno i tt s.acks))
          | no other ↦ inl (ground (arith, has-lookup-erase ackno i s.seqnums_sent))
        ]
        | inr there ↦
            inr (ap has (f.kept i le) ∙ ground (arith, has-lookup-insert ackno i tt s.acks))
      ]

  pub take_off_freed-InOrder :
      (ackno : ℕ) (s : SelectiveRepeatServer h)
      → InOrder h file window least s
      → ackno < s.seq_no
      → Ensures
          (IsSound h file window)
          (InOrder h file window least)
          (or_fault (take_off_freed h ackno s))
  unfolding take_off_freed or_fault
  take_off_freed-InOrder ackno s p below =
      if-both (λ o. Ensures (IsSound h file window) (InOrder h file window least) (or_fault o))
        (Host.keeps_freed h) _ _ (λ _. take_off-InOrder ackno s p below) (λ _. tt)
