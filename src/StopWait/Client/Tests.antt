-- ===== src/StopWait/Client/Tests.antt =====
-- The client on the arrivals of a small transfer.
use reliable_data_transfer.Base.{◌*◌, ◌≡◌, true, some, take}
use reliable_data_transfer.DataManagers.Sinking.{Holds}
use reliable_data_transfer.Socket.Samples.{
  small, arrivals, arrivals_arrive, small-Fits, sink, sink-Holds,
}
use reliable_data_transfer.StopWait.Client.{StopWaitClient, new_client, recv_message}
use reliable_data_transfer.StopWait.Client.Delivery.{stop_wait_delivers}

stop_wait_delivers_example :
    (c : StopWaitClient) × (recv_message (new_client sink) arrivals ≡ some c)
    × Holds (take (512 * c.ack_no) small) c.sink
    × (c.end ≡ true → Holds small c.sink)
stop_wait_delivers_example =
    stop_wait_delivers small small-Fits sink arrivals sink-Holds arrivals_arrive
