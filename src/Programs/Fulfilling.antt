-- ===== src/Programs/Fulfilling.antt =====
-- client.cpp and server.cpp together: a request whose file arrives.
use reliable_data_transfer.Base.{
  ◌∙◌, ℕ, ◌+◌, ◌*◌, ◌^◌, ◌≤◌, ◌<◌, Bool, true, List, [], map, some, ◌≡◌, refl, length,
}
use reliable_data_transfer.Packet.{Packet}
use reliable_data_transfer.FileSystem.{Disk}
use reliable_data_transfer.DataManagers.{new_feeder, read_file, new_sink, set_sink_file}
use reliable_data_transfer.DataManagers.Feeding.{read_file-Feeds}
use reliable_data_transfer.DataManagers.Sinking.{Holds, set_sink_file-Holds}
use reliable_data_transfer.Serial.{serialize_packet}
use reliable_data_transfer.Socket.{Recv, Host, Net}
use reliable_data_transfer.Socket.Lossless.{IsLossless}
use reliable_data_transfer.Run.{done}
use reliable_data_transfer.Workers.{
  ProtoType, create_client_worker, create_server_worker, Received, recv_message,
}
use reliable_data_transfer.DataManagers.Naming.{file_name, set_sink_file-name}
use reliable_data_transfer.Workers.Naming.{recv_message-name}
use reliable_data_transfer.Workers.Ending.{WindowFits}
use reliable_data_transfer.Workers.Completing.{FreedFits, arrival, transfer_completes}
use reliable_data_transfer.Programs.Retries.{max_retries, attempt}
use reliable_data_transfer.Programs.ClientProgram.{request_packet}
use reliable_data_transfer.Programs.ServerProgram.{Server, served, receive_request, serve}
use reliable_data_transfer.Programs.Requests.{IsText, request-path_of}

module _ (h : Host) (socket : Host.World h → Bool × Host.World h) (disk : Disk)
    (dup_acks : List ℕ) where
  -- The client's request for a file that the server has, by a name of at most 512 bytes of which
  -- none is zero, arrives, the child of the server gets a socket, and from then on the network
  -- loses nothing, its receiver acknowledges each packet at once and the clock stands still: then
  -- the server reads the request, the child ends after one round for each packet of the file and
  -- one more, and the client of the same type, to which the datagrams come one after the other,
  -- ends with the whole file in its output file, which has the name that it asked for. Of the
  -- selective-repeat type this is said only for memory in which the key of an erased map entry can
  -- still be read, which the language does not promise. The server's window is not empty and its
  -- end does not wrap, nor those of a selective-repeat client, and the file has at most 512 * 2^31
  -- - 1536 bytes.
  pub requested_file_arrives :
      {F : Type 0} (type : ProtoType) (server : Server F) (rounds client_window : ℕ)
      (filename file : List ℕ) (pack : Packet) (r : Recv) (w : Host.World h)
      (stack : List ℕ → List ℕ) (l : IsLossless h file)
      → IsText filename
      → length filename ≤ 512
      → request_packet filename ≡ some pack
      → r.bytes ≡ serialize_packet pack
      → disk filename ≡ some file
      → (attempt max_retries socket w).0 ≡ true
      → l.Idle (attempt max_retries socket w).1
      → FreedFits (create_server_worker type) h
      → 0 < server.slide_window
      → length file + 512 * server.slide_window + 1024 < 512 * 2 ^ 32
      → WindowFits (create_client_worker type) client_window file
      → length file + 1536 ≤ 512 * 2 ^ 31
      → length file + 1024 ≤ 512 * rounds
      → (receive_request r ≡ some (some pack))
        × (net : Net h) × (serve h socket disk dup_acks type server rounds pack w
            ≡ some (served (done net)))
        × (c : Received) × (recv_message
              (create_client_worker type)
              client_window
              (set_sink_file true new_sink filename)
              (map (arrival stack) net.sent)
            ≡ some c)
        × (c.over ≡ true)
        × Holds file c.sink
        × (file_name c.sink ≡ some filename)
  unfolding serve
  requested_file_arrives type server rounds client_window filename file pack r w stack l text short
        made same on_disk opened idle freed open_at no_wrap client_open small enough =
      let (read, path) = request-path_of filename pack r text short made same in
      let (found, feeds) = read_file-Feeds disk filename file on_disk in
      let (net, e, c, received, over, holds) =
        transfer_completes h file l type rounds server.slide_window client_window dup_acks
          (read_file disk new_feeder filename).0
          (record { world = (attempt max_retries socket w).1; sent = [] })
          (set_sink_file true new_sink filename) stack freed open_at no_wrap client_open small
          enough feeds refl idle (set_sink_file-Holds new_sink filename) in
      (
        read,
        net,
        rw (opened, path, found, e) refl,
        c,
        received,
        over,
        holds,
        recv_message-name (create_client_worker type) client_window
              (set_sink_file true new_sink filename) (map (arrival stack) net.sent) c received
            ∙ set_sink_file-name true new_sink filename,
      )
