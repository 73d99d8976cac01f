-- ===== src/Workers/Ending.antt =====
-- How the client workers end.
use reliable_data_transfer.Base.{
  ℕ, ◌+◌, ◌-◌, ◌*◌, ◌^◌, ◌<◌, true, not, List, [], All, some, ◌≡◌, refl, arith, length,
}
use reliable_data_transfer.DataManagers.{DataSink}
use reliable_data_transfer.DataManagers.Sinking.{Holds}
use reliable_data_transfer.Socket.{Recv}
use reliable_data_transfer.Socket.Genuine.{Fits, Arrives}
use reliable_data_transfer.Reception.{Serves}
use reliable_data_transfer.StopWait.Client.Delivery.{stop_wait_completes}
use reliable_data_transfer.GoBackN.Client.Delivery.{go_back_completes}
use reliable_data_transfer.SelectiveRepeat.Client.{running}
use reliable_data_transfer.SelectiveRepeat.Client.Delivery.{selective_repeat_completes}
use reliable_data_transfer.SelectiveRepeatCc.Client.Agreement.{congestion_client_agrees}
use reliable_data_transfer.Workers.{
  ClientWorker, stop_wait_client, selective_repeat_client, go_back_client,
  selective_repeat_cc_client, Received, recv_message,
}

-- The window is not empty, and its end does not wrap.
abbrev pub IsOpen : ℕ → List ℕ → Type 0
IsOpen window file = (0 < window) × (length file + 512 * window < 512 * (2 ^ 32 - 2))

-- Two of the workers do not look at the window.
abbrev pub WindowFits : ClientWorker → ℕ → List ℕ → Type 0
WindowFits stop_wait_client window file = Unit
WindowFits go_back_client window file = Unit
WindowFits selective_repeat_client window file = IsOpen window file
WindowFits selective_repeat_cc_client window file = IsOpen window file

-- Let what arrives be packets of the transfer of a file of less than 512 * (2^32 - 2) bytes,
-- receptions that fail, or packets that the checksum rejects, and let each packet of the transfer
-- arrive after its predecessors have, with any of these in between: then each of the four client
-- workers ends without a fault, and its output file is the file sent. For the two selective-repeat
-- workers the window is not empty and its end does not wrap.
pub client_worker_completes :
    (file : List ℕ)
    → Fits file
    → (worker : ClientWorker) (window : ℕ) (sink : DataSink) (rs : List Recv)
    → WindowFits worker window file
    → Holds [] sink
    → All (Arrives file) rs
    → Serves file 0 rs
    → (c : Received) × (recv_message worker window sink rs ≡ some c)
      × (c.over ≡ true)
      × Holds file c.sink
unfolding recv_message
client_worker_completes file fits stop_wait_client window sink rs w empty arrive serves =
    let (c, e, ended, whole) = stop_wait_completes file fits sink rs empty arrive serves in
    (record { sink = c.sink; over = c.end; sent = c.sent }, rw e refl, ended, whole)
client_worker_completes file fits go_back_client window sink rs w empty arrive serves =
    let (c, e, ended, whole) = go_back_completes file fits sink rs empty arrive serves in
    (record { sink = c.sink; over = c.end; sent = c.sent }, rw e refl, ended, whole)
client_worker_completes file fits selective_repeat_client window sink rs w empty arrive serves =
    let (c, e, stopped, whole) =
      selective_repeat_completes file fits window sink rs w.0 w.1 empty arrive serves in
    (
      record { sink = c.sink; over = not (running c); sent = c.sent },
      rw e refl,
      ground arith,
      whole,
    )
client_worker_completes file fits selective_repeat_cc_client window sink rs w empty arrive serves =
    let (c, e, stopped, whole) =
      selective_repeat_completes file fits window sink rs w.0 w.1 empty arrive serves in
    (
      record { sink = c.sink; over = not (running c); sent = c.sent },
      rw (congestion_client_agrees window sink rs, e) refl,
      ground arith,
      whole,
    )
