-- ===== src/GoBackN/Client/Tests.antt =====
-- The client on the arrivals of a small transfer.
use reliable_data_transfer.Base.{◌*◌, ◌≡◌, true, some, take}
use reliable_data_transfer.DataManagers.Sinking.{Holds}
use reliable_data_transfer.Socket.Samples.{
  small, arrivals, arrivals_arrive, small-Fits, sink, sink-Holds,
}
use reliable_data_transfer.GoBackN.Client.{GoBackClient, new_client, recv_message}
use reliable_data_transfer.GoBackN.Client.Delivery.{go_back_delivers}

go_back_delivers_example :
    (c : GoBackClient) × (recv_message (new_client sink) arrivals ≡ some c)
    × Holds (take (512 * c.base_ack_no) small) c.sink
    × (c.end ≡ true → Holds small c.sink)
go_back_delivers_example =
    go_back_delivers small small-Fits sink arrivals sink-Holds arrivals_arrive
