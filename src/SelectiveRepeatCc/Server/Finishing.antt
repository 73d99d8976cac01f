-- ===== src/SelectiveRepeatCc/Server/Finishing.antt =====
-- selectiveRepeatCCServer.cpp: `send_message` as a whole.
use reliable_data_transfer.Base.{
  ℕ, ◌+◌, ◌*◌, ◌≤◌, ◌^◌, true, false, not, List, [], ◌∷◌, All, ◌≡◌, sym, subst, inl, inr, arith,
  length,
}
use reliable_data_transfer.Base.Maps.{lookup, lookup-nil}
use native.Mathlib.Decide.{dec_lt}
use reliable_data_transfer.DataManagers.{has_next}
use reliable_data_transfer.DataManagers.Reading.{Reads-over, Feeds-Reads}
use reliable_data_transfer.DataManagers.Feeding.{Feeds}
use reliable_data_transfer.Socket.{Host}
use reliable_data_transfer.Socket.Wire.{IsOfTransfer}
use reliable_data_transfer.Run.{Ensures, then-Ensures, repeat-Ensures}
use reliable_data_transfer.SelectiveRepeat.Server.{is_empty, is_in, SelectiveRepeatServer}
use reliable_data_transfer.SelectiveRepeatCc.Congestion.Reach.{new_congestion-IsSane}
use reliable_data_transfer.SelectiveRepeatCc.Server.{
  SelectiveRepeatCcServer, wait, send_or_wait, send_message,
}
use reliable_data_transfer.SelectiveRepeatCc.Server.Order.{IsCcSound, IsCcFinished, IsSteady}
use reliable_data_transfer.SelectiveRepeatCc.Server.Acknowledging.{Steady-Sound}
use reliable_data_transfer.SelectiveRepeatCc.Server.Sending.{wait-Ok}
use reliable_data_transfer.SelectiveRepeatCc.Server.Appending.{send_or_wait-Steady}

module _ (h : Host) (file : List ℕ) (roomy : length file + 2048 ≤ 512 * 2 ^ 32) where
  -- The order is empty, so nothing waits for an acknowledgement any more.
  emptied-IsCcFinished :
      (least : ℕ) (s : SelectiveRepeatCcServer h)
      → length file + 512 ≤ 512 * least
      → IsSteady h file least s
      → not (is_empty s.core.send_order) ≡ false
      → IsCcFinished h file s
  unfolding is_empty lookup is_in
  emptied-IsCcFinished least s over p stop = record {
    all_acked = elim (dec_lt s.core.base_seq_no s.core.seq_no) [
      | no done_all ↦ omega (arith, p.in_order.low)
      | yes one_left ↦ elim (p.in_order.covers s.core.base_seq_no (omega arith) one_left) [
        | inl waits ↦
            absurd (nothing_waits s.core.send_order stop (p.queued s.core.base_seq_no waits))
        | inr there ↦ let closed = p.in_order.open_at in absurd (ground arith)
      ]
    ];
    whole = omega (arith, p.in_order.reached);
    sound = Steady-Sound h file (omega arith) roomy least s p;
  }
    where
      nothing_waits :
          (order : List ℕ)
          → not (is_empty order) ≡ false
          → is_in s.core.base_seq_no order ≡ true
          → ⊥
      nothing_waits [] e held = absurd cc
      nothing_waits (i ∷ order) e held = absurd cc

  -- Whatever the network, the clock, the random draws and the file control.cc do short of leading
  -- the congestion-controlled server into undefined behaviour: every datagram that it hands to
  -- sendto is a packet of the file it is given, and the window is never zero nor wider than the
  -- packets that have gone out, and one. Where it ends, the base has come to the next number,
  -- behind every packet of the file, the empty one included. The threshold is not zero at the start
  -- and the file has at most 512 * 2^32 - 2048 bytes. A second copy of the last acknowledgement
  -- leads into undefined behaviour, and nothing is said of that run.
  pub congestion_server_sends :
      (rounds org_window : ℕ) (dup_acks : List ℕ) (worker : SelectiveRepeatServer h)
      → 1 ≤ org_window
      → Feeds file 0 worker.data_feeder
      → worker.seqnums_sent ≡ []
      → worker.data_sent ≡ []
      → worker.acks ≡ []
      → worker.net.sent ≡ []
      → Ensures
          (IsCcSound h file)
          (IsCcFinished h file)
          (send_message h rounds org_window dup_acks worker)
  unfolding send_message
  congestion_server_sends rounds org_window dup_acks worker open_at feeds no_times no_data no_acks
        none_sent =
      then-Ensures (IsCcSound h file)
        (λ s. IsSteady h file 0 s × (has_next s.core.data_feeder ≡ false)) (IsCcFinished h file) _ _
        (repeat-Ensures (IsCcSound h file) _ (send_or_wait h rounds) (IsSteady h file 0)
          (λ s. IsSteady h file 0 s × (has_next s.core.data_feeder ≡ false))
          (Steady-Sound h file (omega arith) roomy 0)
          (λ s p more. send_or_wait-Steady h file (omega arith) roomy 0 rounds s p more)
          (λ s p stop. (p, stop)) rounds _
          (record {
            in_order = record {
              low = omega arith;
              in_window = omega arith;
              reached = omega arith;
              timed = λ i held.
                  let e = lookup-nil i worker.seqnums_sent no_times in absurd (ground arith);
              acked = λ i held. let e = lookup-nil i worker.acks no_acks in absurd (ground arith);
              open_at = lookup-nil 0 worker.acks no_acks;
              order = tt;
              covers = λ i le lt. absurd (omega arith);
              stores = λ i q e. let e' = lookup-nil i worker.data_sent no_data in absurd cc;
              reads = Feeds-Reads file worker.data_feeder feeds;
              wire = subst (All (IsOfTransfer file)) (sym none_sent) tt;
            };
            queued = λ i held.
                let e = lookup-nil i worker.seqnums_sent no_times in absurd (ground arith);
            most = 1;
            budget = rw no_data (omega arith);
            sane = new_congestion-IsSane org_window dup_acks open_at;
          }))
        (λ s (p, stop).
          let o = p.in_order in
          let over = Reads-over file s.core.seq_no s.core.data_feeder o.reads stop in
          repeat-Ensures (IsCcSound h file) _ (wait h rounds) (IsSteady h file s.core.seq_no)
            (IsCcFinished h file) (Steady-Sound h file (omega arith) roomy s.core.seq_no)
            (λ s' p' more. wait-Ok h file (omega arith) roomy s.core.seq_no rounds s' p')
            (λ s' p' stop'. emptied-IsCcFinished s.core.seq_no s' over p' stop') rounds s
            (record {
              in_order = record {
                low = o.low;
                in_window = o.in_window;
                reached = omega arith;
                timed = o.timed;
                acked = o.acked;
                open_at = o.open_at;
                order = o.order;
                covers = o.covers;
                stores = o.stores;
                reads = o.reads;
                wire = o.wire;
              };
              queued = p.queued;
              most = p.most;
              budget = p.budget;
              sane = p.sane;
            }))
