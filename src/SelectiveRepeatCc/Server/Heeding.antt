-- ===== src/SelectiveRepeatCc/Server/Heeding.antt =====
-- selectiveRepeatCCServer.cpp: `receive_ack` as a whole, and what it takes for an acknowledgement.
use reliable_data_transfer.Base.{ℕ, Bool, true, ◌≡◌, ◌⊎◌}
use reliable_data_transfer.Packet.{AckPacket}
use reliable_data_transfer.Socket.{Host, Reception}
use reliable_data_transfer.SelectiveRepeat.Server.Heeding.{IsHeard, IsKept, IsTaken}
use reliable_data_transfer.SelectiveRepeatCc.Congestion.{
  Congestion, window_decrease, acknowledge_one,
}
use reliable_data_transfer.SelectiveRepeatCc.Server.{SelectiveRepeatCcServer}

module _ (h : Host) (s : SelectiveRepeatCcServer h) (front : ℕ) where
  -- Nothing is acknowledged: no packet is taken off, and the window is as it was, or as a timeout
  -- leaves it.
  pub record IsCcKept (s' : SelectiveRepeatCcServer h) : Type 0 where
    pub kept : IsKept h s.cong.window s.core front s'.core
    pub cong : (s'.cong ≡ s.cong) ⊎ (s'.cong ≡ window_decrease true s.cong)

  -- One packet is acknowledged.
  pub record IsCcTaken (s' : SelectiveRepeatCcServer h) : Type 0 where
    pub by : Reception AckPacket
    pub has_come : IsHeard h s.cong.window s.core front by
    pub taken : IsTaken h s.cong.window s.core front by.packet.ackno s'.core
    pub cong : s'.cong ≡ acknowledge_one s.cong

  Heeds : Bool × SelectiveRepeatCcServer h → Type 0
  Heeds r = IsCcKept r.1 ⊎ IsCcTaken r.1
