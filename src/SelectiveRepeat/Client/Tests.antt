-- ===== src/SelectiveRepeat/Client/Tests.antt =====
-- The client on the arrivals of a small transfer, with a window of four.
use reliable_data_transfer.Base.{◌*◌, ◌≡◌, false, some, take}
use reliable_data_transfer.DataManagers.Sinking.{Holds}
use reliable_data_transfer.Socket.Samples.{
  small, arrivals, arrivals_arrive, small-Fits, sink, sink-Holds,
}
use reliable_data_transfer.SelectiveRepeat.Client.{
  SelectiveRepeatClient, new_client, recv_message, running,
}
use reliable_data_transfer.SelectiveRepeat.Client.Delivery.{selective_repeat_delivers}

selective_repeat_delivers_example :
    (c : SelectiveRepeatClient) × (recv_message 4 (new_client sink) arrivals ≡ some c)
    × Holds (take (512 * c.base_ack_no) small) c.sink
    × (running c ≡ false → Holds small c.sink)
selective_repeat_delivers_example =
    selective_repeat_delivers small small-Fits 4 sink arrivals sink-Holds arrivals_arrive
