-- ===== src/Workers/Naming.antt =====
-- The name of the file that a client worker writes to.
use reliable_data_transfer.Base.{
  ℕ, List, Option, none, some, ◌≡◌, refl, ◌∙◌, sym, ap, some_inj, ◌>>=◌,
}
use reliable_data_transfer.DataManagers.{DataSink}
use reliable_data_transfer.DataManagers.Naming.{file_name}
use reliable_data_transfer.Socket.{Recv}
use reliable_data_transfer.StopWait.Client as StopWaitSide
use reliable_data_transfer.StopWait.Client.Naming as StopWaitName
use reliable_data_transfer.GoBackN.Client as GoBackSide
use reliable_data_transfer.GoBackN.Client.Naming as GoBackName
use reliable_data_transfer.SelectiveRepeat.Client as SelectiveSide
use reliable_data_transfer.SelectiveRepeat.Client.Naming as SelectiveName
use reliable_data_transfer.SelectiveRepeatCc.Client as CongestionSide
use reliable_data_transfer.SelectiveRepeatCc.Client.Agreement.{congestion_client_agrees}
use reliable_data_transfer.Workers.{
  ClientWorker, stop_wait_client, selective_repeat_client, go_back_client,
  selective_repeat_cc_client, Received, recv_message,
}

-- What a worker's loop returns, and what is seen of it.
seen_name :
    {S : Type 0} (o : Option S) (f : S → Received) (name : Option (List ℕ)) (c : Received)
    → ((s : S) → o ≡ some s → file_name (f s).sink ≡ name)
    → (o >>= (λ s. some (f s))) ≡ some c
    → file_name c.sink ≡ name
seen_name none f name c all e = absurd (cc)
seen_name (some s) f name c all e =
    ap (λ (c : Received). file_name c.sink) (sym (some_inj e)) ∙ all s refl

-- Whatever arrives, the file of the sink has the name that it was opened under.
pub recv_message-name :
    (worker : ClientWorker) (window : ℕ) (sink : DataSink) (rs : List Recv) (c : Received)
    → recv_message worker window sink rs ≡ some c
    → file_name c.sink ≡ file_name sink
unfolding recv_message StopWaitSide.new_client GoBackSide.new_client SelectiveSide.new_client
recv_message-name stop_wait_client window sink rs c e =
    seen_name (StopWaitSide.recv_message (StopWaitSide.new_client sink) rs) _ (file_name sink) c
      (λ s. StopWaitName.recv_message-SameFile (StopWaitSide.new_client sink) s rs) e
recv_message-name go_back_client window sink rs c e =
    seen_name (GoBackSide.recv_message (GoBackSide.new_client sink) rs) _ (file_name sink) c
      (λ s. GoBackName.recv_message-SameFile (GoBackSide.new_client sink) s rs) e
recv_message-name selective_repeat_client window sink rs c e =
    seen_name (SelectiveSide.recv_message window (SelectiveSide.new_client sink) rs) _
      (file_name sink) c
      (λ s. SelectiveName.recv_message-SameFile window (SelectiveSide.new_client sink) s rs) e
recv_message-name selective_repeat_cc_client window sink rs c e =
    seen_name (CongestionSide.recv_message window (SelectiveSide.new_client sink) rs) _
      (file_name sink) c
      (λ s e'.
        SelectiveName.recv_message-SameFile window (SelectiveSide.new_client sink) s rs
          (sym (congestion_client_agrees window sink rs) ∙ e'))
      e
