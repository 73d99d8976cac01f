-- ===== src/GoBackN/Server/Finishing.antt =====
-- GoBackServer.cpp: `send_message` as a whole.
use reliable_data_transfer.Base.{
  ℕ, zero, suc, ◌+◌, ◌*◌, ◌≤◌, false, not, List, [], ◌∷◌, All, ◌≡◌, refl, sym, subst, arith, length,
}
use reliable_data_transfer.Packet.{Packet}
use reliable_data_transfer.DataManagers.{has_next}
use reliable_data_transfer.DataManagers.Reading.{Reads-over, Feeds-Reads}
use reliable_data_transfer.DataManagers.Feeding.{Feeds}
use reliable_data_transfer.Socket.{Host}
use reliable_data_transfer.Socket.Genuine.{Fits}
use reliable_data_transfer.Socket.Wire.{IsOfTransfer}
use reliable_data_transfer.Run.{repeat, Ensures, then-Ensures, Ensures-weaken, repeat-Ensures}
use reliable_data_transfer.GoBackN.Server.{GoBackServer, is_empty, wait, send_or_wait, send_message}
use reliable_data_transfer.GoBackN.Server.Window.{IsSound, IsFinished, packets}
use reliable_data_transfer.GoBackN.Server.Acks.{InOrder}
use reliable_data_transfer.GoBackN.Server.Waiting.{InOrder-Sound, wait-InOrder}
use reliable_data_transfer.GoBackN.Server.Sending.{send_or_wait-InOrder}

module _ (h : Host) (file : List ℕ) (fits : Fits file) (window : ℕ) where
  empty_packets :
      (base n : ℕ) (ps : List Packet)
      → ps ≡ packets file base n
      → not (is_empty ps) ≡ false
      → (ps ≡ []) × (n ≡ 0)
  unfolding is_empty packets
  empty_packets base zero [] e stop = (refl, refl)
  empty_packets base zero (p ∷ ps) e stop = absurd cc
  empty_packets base (suc n) [] e stop = absurd cc
  empty_packets base (suc n) (p ∷ ps) e stop = absurd cc

  -- The second loop, behind a feeder that has nothing more.
  wait_all-IsFinished :
      (rounds least : ℕ) (s : GoBackServer h)
      → length file + 512 ≤ 512 * least
      → InOrder h file fits window least s
      → Ensures
          (IsSound h file window)
          (IsFinished h file)
          (repeat rounds (λ s. (not (is_empty s.unacked_packet), s)) (wait h rounds window) s)
  wait_all-IsFinished rounds least s over p =
      repeat-Ensures (IsSound h file window) _ (wait h rounds window)
        (InOrder h file fits window least) (IsFinished h file)
        (InOrder-Sound h file fits window least)
        (λ s p more.
          Ensures-weaken (IsSound h file window) (InOrder h file fits window least)
            (InOrder h file fits window least) _ (InOrder-Sound h file fits window least)
            (wait-InOrder h file fits window least rounds s p))
        (λ s p stop.
          let (none_out, zero_out) =
            empty_packets s.base_seq_no p.count s.unacked_packet p.unacked stop in
          record {
            none_out = none_out;
            all_acked = omega (arith, p.numbers);
            whole = omega (arith, p.reached);
            wire = p.wire;
          })
        rounds s p

  -- Whatever the network, the clock and the random draws do short of leading the go-back-n server
  -- into undefined behaviour: every datagram that it hands to sendto is a packet of the file it is
  -- given, and where it stops early the packets that are out are the consecutive ones from the base
  -- to the next number, no more than the window. Where it ends, none is out, and the base has come
  -- to the next number, behind every packet of the file, the empty one included. The file has less
  -- than 512 * (2^32 - 2) bytes. An acknowledgement of a packet not yet sent leads into undefined
  -- behaviour, and nothing is said of that run.
  pub go_back_server_sends :
      (rounds : ℕ) (s : GoBackServer h)
      → Feeds file 0 s.data_feeder
      → s.unacked_packet ≡ []
      → s.net.sent ≡ []
      → Ensures (IsSound h file window) (IsFinished h file) (send_message h rounds window s)
  unfolding send_message packets
  go_back_server_sends rounds s feeds none_out none_sent =
      then-Ensures (IsSound h file window)
        (λ s. InOrder h file fits window 0 s × (has_next s.data_feeder ≡ false)) (IsFinished h file)
        _ _
        (repeat-Ensures (IsSound h file window) _ (send_or_wait h rounds window)
          (InOrder h file fits window 0)
          (λ s. InOrder h file fits window 0 s × (has_next s.data_feeder ≡ false))
          (InOrder-Sound h file fits window 0)
          (λ s p more. send_or_wait-InOrder h file fits window 0 rounds s p more)
          (λ s p stop. (p, stop)) rounds _
          (record {
            count = 0;
            unacked = none_out;
            numbers = refl;
            in_window = omega arith;
            reached = omega arith;
            reads = Feeds-Reads file s.data_feeder feeds;
            wire = subst (All (IsOfTransfer file)) (sym none_sent) tt;
          }))
        (λ s (p, stop).
          wait_all-IsFinished rounds s.seq_no s
            (Reads-over file s.seq_no s.data_feeder p.reads stop)
            (record {
              count = p.count;
              unacked = p.unacked;
              numbers = p.numbers;
              in_window = p.in_window;
              reached = omega arith;
              reads = p.reads;
              wire = p.wire;
            }))
