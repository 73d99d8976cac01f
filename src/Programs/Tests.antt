-- ===== src/Programs/Tests.antt =====
-- A request for a file with the name "a", and the programs that make and answer it.
use reliable_data_transfer.Base.{
  ℕ, ◌+◌, ◌<◌, ◌≤◌, true, false, List, [], ◌∷◌, none, some, ◌⊎◌, ◌↔◌, ◌≡◌, refl, arith, map,
}
use reliable_data_transfer.Packet.{Packet, zero_bytes}
use reliable_data_transfer.Packet.Copy.{data_packet, length-zero_bytes, create_data_packet_fits}
use reliable_data_transfer.Serial.{serialize_packet}
use reliable_data_transfer.DataManagers.{new_sink, set_sink_file}
use reliable_data_transfer.FileSystem.{Disk}
use reliable_data_transfer.Socket.{Recv, Net}
use reliable_data_transfer.Socket.Samples.{
  small, loopback, small-Fits, loopback-IsLossless, loopback_idle,
}
use reliable_data_transfer.Run.{Run, Ensures, done}
use reliable_data_transfer.Workers.{
  go_back_n, selective_repeat_cc, Received, recv_message, create_client_worker,
  create_server_worker,
}
use reliable_data_transfer.Workers.Transfers.{Delivers}
use reliable_data_transfer.DataManagers.Sinking.{Holds}
use reliable_data_transfer.DataManagers.Naming.{file_name}
use reliable_data_transfer.Workers.Completing.{arrival}
use reliable_data_transfer.Programs.Fulfilling.{requested_file_arrives}
use reliable_data_transfer.Programs.{choose_protocol}
use reliable_data_transfer.Programs.Menu.{choose_protocol-menu}
use reliable_data_transfer.Programs.Retries.{max_retries, attempt}
use reliable_data_transfer.Programs.ClientProgram.{ClientHost, request_packet, ask}
use reliable_data_transfer.Programs.ServerProgram.{
  Server, served, receive_request, request_path, serve,
}
use reliable_data_transfer.Programs.Requests.{IsText, request_path-eq-none_iff}
use reliable_data_transfer.Programs.Asking.{world_of, request_bound}
use reliable_data_transfer.Programs.Service.{request_is_served}

abbrev name : List ℕ
name = 97 ∷ []

name-IsText : IsText name
name-IsText = (omega arith, tt)

-- The datagram with the request.
abbrev arrived : Recv
arrived = record {
  bytes = serialize_packet (data_packet (97 ∷ 0 ∷ []) 1 0);
  stack = [];
  would_block = false;
}

-- A header that is too short.
abbrev broken : Packet
broken = record { check_sum = 0; len = 7; seqno = 0; payload = zero_bytes 512 }

request_path-eq-none_iff_example :
    (request_path broken ≡ none) ↔ ((broken.len < 8) ⊎ (520 < broken.len))
request_path-eq-none_iff_example = request_path-eq-none_iff broken (length-zero_bytes 512)

third_line : choose_protocol 3 ≡ some go_back_n
third_line = choose_protocol-menu go_back_n

-- A network that takes every datagram and never answers. The state counts the datagrams.
abbrev mute : ClientHost
mute = record {
  World = ℕ;
  socket = λ w. (true, w);
  bind = λ port w. (true, w);
  sendto = λ bytes w. (true, w + 1);
  peek = λ w. (false, w);
  arrivals = λ w. [];
  can_open = λ w. true;
}

request_bound_example : world_of mute (ask mute max_retries broken 0) ≤ 0 + 12
request_bound_example =
    request_bound mute (λ w. w) (λ bytes w. omega arith) (λ w. omega arith) broken 0

abbrev server : Server Unit
server = record { loss_prob = tt; port = 8080; slide_window = 4; seed = 7 }

abbrev disk : Disk
disk path = some small

-- The request for it.
abbrev asked : Packet
asked = data_packet (97 ∷ 0 ∷ []) 1 0

request_is_served_example :
    (receive_request arrived ≡ some (some asked))
    × (run : Run (Net loopback) (Net loopback)) × (serve loopback
          (λ w. (true, w))
          disk
          (2 ∷ [])
          selective_repeat_cc
          server
          5
          asked
          []
        ≡ some (served run))
    × Ensures
        (Delivers loopback small selective_repeat_cc 4 (set_sink_file true new_sink name))
        (Delivers loopback small selective_repeat_cc 4 (set_sink_file true new_sink name))
        run
unfolding attempt request_packet
request_is_served_example =
    request_is_served loopback (λ w. (true, w)) disk (2 ∷ []) selective_repeat_cc server 5 4 name
      small asked arrived [] name-IsText (omega arith)
      (create_data_packet_fits (97 ∷ 0 ∷ []) 1 0 (omega arith) (omega arith)) refl refl
      (omega arith) (omega arith) refl

requested_file_arrives_example :
    (receive_request arrived ≡ some (some asked))
    × (net : Net loopback) × (serve loopback
          (λ w. (true, w))
          disk
          (2 ∷ [])
          go_back_n
          server
          4
          asked
          []
        ≡ some (served (done net)))
    × (c : Received) × (recv_message
          (create_client_worker go_back_n)
          4
          (set_sink_file true new_sink name)
          (map (arrival (λ bytes. [])) net.sent)
        ≡ some c)
    × (c.over ≡ true)
    × Holds small c.sink
    × (file_name c.sink ≡ some name)
unfolding attempt create_client_worker create_server_worker request_packet
requested_file_arrives_example =
    requested_file_arrives loopback (λ w. (true, w)) disk (2 ∷ []) go_back_n server 4 4 name small
      asked arrived [] (λ bytes. []) (loopback-IsLossless small small-Fits) name-IsText
      (omega arith) (create_data_packet_fits (97 ∷ 0 ∷ []) 1 0 (omega arith) (omega arith)) refl
      refl refl (loopback_idle small small-Fits) tt (omega arith) (omega arith) tt (omega arith)
      (omega arith)
