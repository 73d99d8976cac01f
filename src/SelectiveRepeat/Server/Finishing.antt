-- ===== src/SelectiveRepeat/Server/Finishing.antt =====
-- SelectiveRepeatServer.cpp: `send_message` as a whole.
use reliable_data_transfer.Base.{
  ℕ, ◌+◌, ◌*◌, ◌≤◌, true, false, not, List, [], ◌∷◌, All, ◌≡◌, sym, subst, inl, inr, arith, length,
}
use reliable_data_transfer.Base.Maps.{lookup, has, lookup-nil}
use native.Mathlib.Decide.{dec_lt}
use reliable_data_transfer.DataManagers.{has_next}
use reliable_data_transfer.DataManagers.Reading.{Reads-over, Feeds-Reads}
use reliable_data_transfer.DataManagers.Feeding.{Feeds}
use reliable_data_transfer.Socket.{Host}
use reliable_data_transfer.Socket.Genuine.{Fits}
use reliable_data_transfer.Socket.Wire.{IsOfTransfer}
use reliable_data_transfer.Run.{Ensures, then-Ensures, repeat-Ensures}
use reliable_data_transfer.SelectiveRepeat.Server.{
  is_empty, SelectiveRepeatServer, wait, send_or_wait, send_message,
}
use reliable_data_transfer.SelectiveRepeat.Server.Order.{IsSound, IsFinished, InOrder}
use reliable_data_transfer.SelectiveRepeat.Server.Receiving.{Good-Sound}
use reliable_data_transfer.SelectiveRepeat.Server.Sending.{wait-Ok}
use reliable_data_transfer.SelectiveRepeat.Server.Appending.{send_or_wait-InOrder}

module _ (h : Host) (file : List ℕ) (fits : Fits file) (window : ℕ) where
  -- Nothing waits for an acknowledgement any more: so the base has reached the next number.
  emptied-IsFinished :
      (least : ℕ) (s : SelectiveRepeatServer h)
      → length file + 512 ≤ 512 * least
      → InOrder h file window least s
      → not (is_empty s.seqnums_sent) ≡ false
      → IsFinished h file s
  unfolding is_empty lookup
  emptied-IsFinished least s over p stop = record {
    all_acked = elim (dec_lt s.base_seq_no s.seq_no) [
      | no done_all ↦ omega (arith, p.low)
      | yes one_left ↦ elim (p.covers s.base_seq_no (omega arith) one_left) [
        | inl waits ↦ absurd (nothing_waits s.seqnums_sent stop waits)
        | inr there ↦ let closed = p.open_at in absurd (ground arith)
      ]
    ];
    whole = omega (arith, p.reached);
    wire = p.wire;
  }
    where
      nothing_waits :
          (times : List (ℕ × ℕ))
          → not (is_empty times) ≡ false
          → has (lookup s.base_seq_no times) ≡ true
          → ⊥
      nothing_waits [] e held = absurd cc
      nothing_waits (t ∷ times) e held = absurd cc

  -- Whatever the network, the clock and the random draws do short of leading the selective-repeat
  -- server into undefined behaviour: every datagram that it hands to sendto is a packet of the file
  -- it is given, and where it stops early the next number is at most the window beyond the base.
  -- Where it ends, the base has come to the next number, behind every packet of the file, the empty
  -- one included. The file has less than 512 * (2^32 - 2) bytes. A second copy of the last
  -- acknowledgement leads into undefined behaviour, and so does any acknowledgement where the key
  -- of an erased map entry cannot be read any more: nothing is said of those runs.
  pub selective_repeat_server_sends :
      (rounds : ℕ) (s : SelectiveRepeatServer h)
      → Feeds file 0 s.data_feeder
      → s.seqnums_sent ≡ []
      → s.data_sent ≡ []
      → s.acks ≡ []
      → s.net.sent ≡ []
      → Ensures (IsSound h file window) (IsFinished h file) (send_message h rounds window s)
  unfolding send_message
  selective_repeat_server_sends rounds s feeds no_times no_data no_acks none_sent =
      then-Ensures (IsSound h file window)
        (λ s. InOrder h file window 0 s × (has_next s.data_feeder ≡ false)) (IsFinished h file) _ _
        (repeat-Ensures (IsSound h file window) _ (send_or_wait h rounds window)
          (InOrder h file window 0)
          (λ s. InOrder h file window 0 s × (has_next s.data_feeder ≡ false))
          (Good-Sound h file fits window 0)
          (λ s p more. send_or_wait-InOrder h file fits window 0 rounds s p more)
          (λ s p stop. (p, stop)) rounds _
          (record {
            low = omega arith;
            in_window = omega arith;
            reached = omega arith;
            timed = λ i held. let e = lookup-nil i s.seqnums_sent no_times in absurd (ground arith);
            acked = λ i held. let e = lookup-nil i s.acks no_acks in absurd (ground arith);
            open_at = lookup-nil 0 s.acks no_acks;
            order = tt;
            covers = λ i le lt. absurd (omega arith);
            stores = λ i q e. let e' = lookup-nil i s.data_sent no_data in absurd cc;
            reads = Feeds-Reads file s.data_feeder feeds;
            wire = subst (All (IsOfTransfer file)) (sym none_sent) tt;
          }))
        (λ s (p, stop).
          let over = Reads-over file s.seq_no s.data_feeder p.reads stop in
          repeat-Ensures (IsSound h file window) _ (wait h rounds window)
            (InOrder h file window s.seq_no) (IsFinished h file)
            (Good-Sound h file fits window s.seq_no)
            (λ s' p' more. wait-Ok h file fits window s.seq_no rounds s' p')
            (λ s' p' stop'. emptied-IsFinished s.seq_no s' over p' stop') rounds s
            (record {
              low = p.low;
              in_window = p.in_window;
              reached = omega arith;
              timed = p.timed;
              acked = p.acked;
              open_at = p.open_at;
              order = p.order;
              covers = p.covers;
              stores = p.stores;
              reads = p.reads;
              wire = p.wire;
            }))
