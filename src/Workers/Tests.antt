-- ===== src/Workers/Tests.antt =====
-- The workers for congestion control, on a small file.
use reliable_data_transfer.Base.{[], ◌∷◌, ◌++◌, some, refl, arith, ◌≡◌, inl, inr, true, map}
use reliable_data_transfer.DataManagers.{DataFeeder, new_feeder, read_file}
use reliable_data_transfer.DataManagers.Feeding.{read_file-Feeds}
use reliable_data_transfer.Socket.{Net}
use reliable_data_transfer.Socket.Samples.{
  small, small-Fits, loopback, loopback-IsLossless, loopback_idle, sink, sink-Holds, arrivals,
  arrivals_arrive,
}
use reliable_data_transfer.Run.{Ensures, done}
use reliable_data_transfer.Workers.{
  selective_repeat_cc, selective_repeat_cc_client, create_server_worker, create_client_worker,
  send_message, Received, recv_message,
}
use reliable_data_transfer.DataManagers.Sinking.{Holds}
use reliable_data_transfer.Reception.{Serves}
use reliable_data_transfer.Workers.Completing.{arrival, transfer_completes}
use reliable_data_transfer.Workers.Ending.{client_worker_completes}
use reliable_data_transfer.Workers.Growing.{Extends, client_worker_refines}
use reliable_data_transfer.Workers.Transfers.{Delivers, transfer_of_each_type}

abbrev feeder : DataFeeder
feeder = (read_file (λ path. some small) new_feeder []).0

abbrev unused : Net loopback
unused = record { world = []; sent = [] }

transfer_of_each_type_example :
    Ensures
      (Delivers loopback small selective_repeat_cc 4 sink)
      (Delivers loopback small selective_repeat_cc 4 sink)
      (send_message loopback (create_server_worker selective_repeat_cc) 5 4 (2 ∷ []) feeder unused)
transfer_of_each_type_example =
    transfer_of_each_type loopback small (omega arith) selective_repeat_cc 5 4 4 (2 ∷ []) feeder
      unused sink (omega arith) (read_file-Feeds (λ path. some small) [] small refl).1 refl
      sink-Holds

-- The same arrivals once more.
client_worker_refines_example :
    (c c' : Received) × (recv_message selective_repeat_cc_client 4 sink arrivals ≡ some c)
    × (recv_message selective_repeat_cc_client 4 sink (arrivals ++ arrivals) ≡ some c')
    × Extends small c c'
client_worker_refines_example =
    client_worker_refines small small-Fits selective_repeat_cc_client 4 sink arrivals arrivals
      sink-Holds arrivals_arrive arrivals_arrive

arrivals_serve : Serves small 0 arrivals
arrivals_serve = inr (inl ((omega arith, refl), inr (inl ((omega arith, refl), omega arith))))

client_worker_completes_example :
    (c : Received) × (recv_message selective_repeat_cc_client 4 sink arrivals ≡ some c)
    × (c.over ≡ true)
    × Holds small c.sink
client_worker_completes_example =
    client_worker_completes small small-Fits selective_repeat_cc_client 4 sink arrivals
      (omega arith, omega arith) sink-Holds arrivals_arrive arrivals_serve

-- Two packets, and one round more.
transfer_completes_example :
    (net' : Net loopback) × (send_message loopback
        (create_server_worker selective_repeat_cc)
        4
        4
        (2 ∷ [])
        feeder
        unused
      ≡ done net')
    × (c : Received) × (recv_message
          (create_client_worker selective_repeat_cc)
          4
          sink
          (map (arrival (λ bytes. [])) net'.sent)
        ≡ some c)
    × (c.over ≡ true)
    × Holds small c.sink
unfolding create_client_worker create_server_worker
transfer_completes_example =
    transfer_completes loopback small (loopback-IsLossless small small-Fits) selective_repeat_cc 4 4
      4 (2 ∷ []) feeder unused sink (λ bytes. []) tt (omega arith) (omega arith)
      (omega arith, omega arith) (omega arith) (omega arith)
      (read_file-Feeds (λ path. some small) [] small refl).1 refl (loopback_idle small small-Fits)
      sink-Holds
