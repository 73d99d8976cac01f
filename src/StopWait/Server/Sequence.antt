-- ===== src/StopWait/Server/Sequence.antt =====
-- StopWaitServer.cpp: the order in which packets go out.
use reliable_data_transfer.Base.{
  ℕ, ◌+◌, ◌*◌, ◌≤◌, List, [], ◌∷◌, ◌++◌, ◌≡◌, sym, inl, inr, Bool-cases, length,
}
use reliable_data_transfer.Serial.{serialize_packet}
use reliable_data_transfer.DataManagers.Reading.{Reads}
use reliable_data_transfer.Socket.{Host, time_now, transmit, send_packet}
use reliable_data_transfer.Socket.Genuine.{IsSent, sent_packet}
use reliable_data_transfer.StopWait.Server.{StopWaitServer, now, transmit_packet}

-- Packets 0 to `i` of the transfer have gone out one after the other, each any number of times.
pub data InSequence (file : List ℕ) : ℕ → List (List ℕ) → Type 0 where
  start : InSequence file 0 []
  again :
      (i : ℕ) (sent : List (List ℕ))
      → IsSent file i
      → InSequence file i sent
      → InSequence file i (sent ++ serialize_packet (sent_packet file i) ∷ [])
  next : (i : ℕ) (sent : List (List ℕ)) → InSequence file i sent → InSequence file (i + 1) sent

module _ (h : Host) (file : List ℕ) where
  pub record IsSound (s : StopWaitServer h) : Type 0 where
    pub sequence : InSequence file s.seq_no s.net.sent

  -- The packets up to the current number are acknowledged, and the feeder is at the next segment.
  pub record IsBetween (s : StopWaitServer h) : Type 0 where
    pub sequence : InSequence file s.seq_no s.net.sent
    pub reads : Reads file s.seq_no s.data_feeder

  -- The packet with the current number is on its way.
  pub record IsWaiting (s : StopWaitServer h) : Type 0 where
    pub sequence : InSequence file s.seq_no s.net.sent
    pub sent : IsSent file s.seq_no
    pub reads : Reads file (s.seq_no + 1) s.data_feeder

  -- Every packet of the file, the empty one included, has had its turn.
  pub record IsFinished (s : StopWaitServer h) : Type 0 where
    pub sequence : InSequence file s.seq_no s.net.sent
    pub whole : length file + 512 ≤ 512 * s.seq_no

  pub IsBetween-IsSound : (s : StopWaitServer h) → IsBetween s → IsSound s
  IsBetween-IsSound s p = record { sequence = p.sequence }

  pub IsWaiting-IsSound : (s : StopWaitServer h) → IsWaiting s → IsSound s
  IsWaiting-IsSound s p = record { sequence = p.sequence }

  pub now-IsWaiting : (s : StopWaitServer h) → IsWaiting s → IsWaiting (now h s).1
  unfolding now time_now
  now-IsWaiting s p = record { sequence = p.sequence; sent = p.sent; reads = p.reads }

  pub transmit_packet-IsWaiting :
      (s : StopWaitServer h) (i : ℕ)
      → s.seq_no ≡ i
      → IsWaiting s
      → IsWaiting (transmit_packet h (sent_packet file i) s).1
  unfolding transmit_packet transmit send_packet
  transmit_packet-IsWaiting s i e p = record {
    sequence = elim (Bool-cases (Host.drop_packet h s.net.world).0) [
      | inl lost ↦ rw lost p.sequence
      | inr kept ↦ rw (kept, sym e) (again s.seq_no s.net.sent p.sent p.sequence)
    ];
    sent = p.sent;
    reads = p.reads;
  }
