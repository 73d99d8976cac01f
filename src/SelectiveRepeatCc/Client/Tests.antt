-- ===== src/SelectiveRepeatCc/Client/Tests.antt =====
-- The client on the arrivals of a small transfer, with a window of four.
use reliable_data_transfer.Base.{◌≡◌}
use reliable_data_transfer.Socket.Samples.{arrivals, sink}
use reliable_data_transfer.SelectiveRepeat.Client as Plain
use reliable_data_transfer.SelectiveRepeat.Client.{new_client}
use reliable_data_transfer.SelectiveRepeatCc.Client.{recv_message}
use reliable_data_transfer.SelectiveRepeatCc.Client.Agreement.{congestion_client_agrees}

congestion_client_agrees_example :
    recv_message 4 (new_client sink) arrivals ≡ Plain.recv_message 4 (new_client sink) arrivals
congestion_client_agrees_example = congestion_client_agrees 4 sink arrivals
