-- ===== src/Transfer/Whole.antt =====
-- The three transfers, from the state that the server has reached.
use reliable_data_transfer.Base.{
  ℕ, ◌*◌, true, List, [], ◌∷◌, All, some, false, ◌≡◌, refl, ◌∙◌, inl, inr, take,
}
use reliable_data_transfer.DataManagers.{DataSink}
use reliable_data_transfer.DataManagers.Sinking.{Holds}
use reliable_data_transfer.Socket.{Recv, Host}
use reliable_data_transfer.Socket.Genuine.{Fits, Arrives}
use reliable_data_transfer.Socket.Wire.{IsOfTransfer, All-append}
use reliable_data_transfer.Transfer.{In, IsCarried}
use reliable_data_transfer.StopWait.Client as StopWaitSide
use reliable_data_transfer.GoBackN.Client as GoBackSide
use reliable_data_transfer.SelectiveRepeat.Client as SelectiveSide
use reliable_data_transfer.StopWait.Client.Delivery.{stop_wait_delivers}
use reliable_data_transfer.StopWait.Server.{StopWaitServer}
use reliable_data_transfer.StopWait.Server.Sequence as StopWaitState
use reliable_data_transfer.StopWait.Server.Sequence.{InSequence, start, again, next}
use reliable_data_transfer.GoBackN.Server.Window as GoBackState
use reliable_data_transfer.SelectiveRepeat.Server.Order as SelectiveState
use reliable_data_transfer.GoBackN.Client.Delivery.{go_back_delivers}
use reliable_data_transfer.GoBackN.Server.{GoBackServer}
use reliable_data_transfer.SelectiveRepeat.Client.Delivery.{selective_repeat_delivers}
use reliable_data_transfer.SelectiveRepeat.Server.{SelectiveRepeatServer}

-- What goes out in sequence belongs to the transfer.
pub InSequence-IsOfTransfer :
    (file : List ℕ) (i : ℕ) (sent : List (List ℕ))
    → InSequence file i sent
    → All (IsOfTransfer file) sent
InSequence-IsOfTransfer file _ _ start = tt
InSequence-IsOfTransfer file _ _ (again i sent fits steps) =
    All-append (IsOfTransfer file) sent _ (InSequence-IsOfTransfer file i sent steps)
      (i, fits, refl)
InSequence-IsOfTransfer file _ _ (next i sent steps) = InSequence-IsOfTransfer file i sent steps

module _ (file : List ℕ) where
  pub In-Arrives :
      (r : Recv) (sent : List (List ℕ))
      → All (IsOfTransfer file) sent
      → In r.bytes sent
      → Arrives file r
  In-Arrives r [] all is_in = absurd is_in
  In-Arrives r (d ∷ sent) ((i, fits, e), all) (inl same) = inl (i, (fits, same ∙ e))
  In-Arrives r (d ∷ sent) (of_it, all) (inr later) = In-Arrives r sent all later

  pub IsCarried-Arrives :
      (sent : List (List ℕ)) (rs : List Recv)
      → All (IsOfTransfer file) sent
      → All (IsCarried sent) rs
      → All (Arrives file) rs
  IsCarried-Arrives sent [] all a = tt
  IsCarried-Arrives sent (r ∷ rs) all (inl here, a) =
      (In-Arrives r sent all here, IsCarried-Arrives sent rs all a)
  IsCarried-Arrives sent (r ∷ rs) all (inr rejected, a) =
      (inr rejected, IsCarried-Arrives sent rs all a)

module _ (h : Host) (file : List ℕ) (fits : Fits file) where
  -- From every state that the go-back-n server can stop in: the client's file is a prefix of the file
  -- sent, and the whole of it once the client has ended.
  pub go_back_transfer :
      (window : ℕ) (s : GoBackServer h) (sink : DataSink) (rs : List Recv)
      → GoBackState.IsSound h file window s
      → Holds [] sink
      → All (IsCarried s.net.sent) rs
      → (c : GoBackSide.GoBackClient) × (GoBackSide.recv_message (GoBackSide.new_client sink) rs
          ≡ some c)
        × Holds (take (512 * c.base_ack_no) file) c.sink
        × (c.end ≡ true → Holds file c.sink)
  go_back_transfer window s sink rs p empty carried =
      go_back_delivers file fits sink rs empty (IsCarried-Arrives file s.net.sent rs p.wire carried)

  -- From every state that the stop-and-wait server can stop in: the client's file is a prefix of the
  -- file sent, and the whole of it once the client has ended.
  pub stop_wait_transfer :
      (s : StopWaitServer h) (sink : DataSink) (rs : List Recv)
      → StopWaitState.IsSound h file s
      → Holds [] sink
      → All (IsCarried s.net.sent) rs
      → (c : StopWaitSide.StopWaitClient) × (StopWaitSide.recv_message
            (StopWaitSide.new_client sink)
            rs
          ≡ some c)
        × Holds (take (512 * c.ack_no) file) c.sink
        × (c.end ≡ true → Holds file c.sink)
  stop_wait_transfer s sink rs p empty carried = stop_wait_delivers file fits sink rs empty (
      IsCarried-Arrives file s.net.sent rs
        (InSequence-IsOfTransfer file s.seq_no s.net.sent p.sequence) carried)

  -- From every state that the selective-repeat server can stop in, whatever the two windows: the
  -- client's file is a prefix of the file sent, and the whole of it once the client's loop has ended.
  pub selective_repeat_transfer :
      (window client_window : ℕ) (s : SelectiveRepeatServer h) (sink : DataSink) (rs : List Recv)
      → SelectiveState.IsSound h file window s
      → Holds [] sink
      → All (IsCarried s.net.sent) rs
      → (c : SelectiveSide.SelectiveRepeatClient) × (SelectiveSide.recv_message client_window
            (SelectiveSide.new_client sink)
            rs
          ≡ some c)
        × Holds (take (512 * c.base_ack_no) file) c.sink
        × (SelectiveSide.running c ≡ false → Holds file c.sink)
  selective_repeat_transfer window client_window s sink rs p empty carried =
      selective_repeat_delivers file fits client_window sink rs empty
        (IsCarried-Arrives file s.net.sent rs p.wire carried)
