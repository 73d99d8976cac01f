-- ===== src/Programs/Service.antt =====
-- client.cpp and server.cpp together: a request and the transfer that answers it.
use reliable_data_transfer.Base.{
  ℕ, ◌+◌, ◌*◌, ◌≤◌, ◌^◌, Bool, true, List, [], some, ◌≡◌, refl, length,
}
use reliable_data_transfer.Packet.{Packet}
use reliable_data_transfer.FileSystem.{Disk}
use reliable_data_transfer.DataManagers.{new_feeder, read_file, new_sink, set_sink_file}
use reliable_data_transfer.DataManagers.Feeding.{read_file-Feeds}
use reliable_data_transfer.DataManagers.Sinking.{set_sink_file-Holds}
use reliable_data_transfer.Serial.{serialize_packet}
use reliable_data_transfer.Socket.{Recv, Host, Net}
use reliable_data_transfer.Run.{Run, Ensures}
use reliable_data_transfer.Workers.{ProtoType}
use reliable_data_transfer.Workers.Transfers.{Delivers, transfer_of_each_type}
use reliable_data_transfer.Programs.Retries.{max_retries, attempt}
use reliable_data_transfer.Programs.ClientProgram.{request_packet}
use reliable_data_transfer.Programs.ServerProgram.{Server, served, receive_request, serve}
use reliable_data_transfer.Programs.Requests.{IsText, request-path_of}

module _ (h : Host) (socket : Host.World h → Bool × Host.World h) (disk : Disk)
    (dup_acks : List ℕ) where
  -- When the datagram of the client's request for a file that the server has, by a name of at most
  -- 512 bytes of which none is zero, arrives, the server reads the request, and if its child gets a
  -- socket, it sends the file: from what it has handed to sendto, at whatever point it has come to
  -- without undefined behaviour, the client of the same type writes a prefix of that file, and the
  -- whole of it once its loop has ended, and its output file has the name that it asked for. The
  -- server's window is not zero, and the file has at most 512 * 2^32 - 2048 bytes. Nothing is said
  -- of a child that runs into undefined behaviour, as a second copy of the last acknowledgement
  -- makes the two selective-repeat servers do.
  pub request_is_served :
      {F : Type 0} (type : ProtoType) (server : Server F) (rounds client_window : ℕ)
      (filename file : List ℕ) (pack : Packet) (r : Recv) (w : Host.World h)
      → IsText filename
      → length filename ≤ 512
      → request_packet filename ≡ some pack
      → r.bytes ≡ serialize_packet pack
      → disk filename ≡ some file
      → length file + 2048 ≤ 512 * 2 ^ 32
      → 1 ≤ server.slide_window
      → (attempt max_retries socket w).0 ≡ true
      → (receive_request r ≡ some (some pack))
        × (run : Run (Net h) (Net h)) × (serve h socket disk dup_acks type server rounds pack w
            ≡ some (served run))
        × Ensures
            (Delivers h file type client_window (set_sink_file true new_sink filename))
            (Delivers h file type client_window (set_sink_file true new_sink filename))
            run
  unfolding serve
  request_is_served type server rounds client_window filename file pack r w text short made same
        on_disk roomy open_at opened =
      let (read, path) = request-path_of filename pack r text short made same in
      let (found, feeds) = read_file-Feeds disk filename file on_disk in
      (
        read,
        _,
        rw (opened, path, found) refl,
        transfer_of_each_type h file roomy type rounds server.slide_window client_window dup_acks
            (read_file disk new_feeder filename).0
            (record { world = (attempt max_retries socket w).1; sent = [] }) _ open_at feeds refl
            (set_sink_file-Holds new_sink filename),
      )
