-- ===== src/Programs/ServerProgram.antt =====
-- server/server.cpp: `start`. The signal handler, what is printed and the time taken are left out.
use reliable_data_transfer.Base.{
  ℕ, ◌+◌, ◌-◌, Bool, true, false, List, [], ◌∷◌, Option, none, some, ltb, ◌==◌, if◌then◌else◌,
  ◌>>=◌, u16, length,
}
use reliable_data_transfer.Packet.{Packet, zero_bytes, memcpy, pck_data_size, pck_header_size}
use reliable_data_transfer.Serial.{deserialize_packet}
use reliable_data_transfer.FileSystem.{Disk}
use reliable_data_transfer.DataManagers.{new_feeder, read_file}
use reliable_data_transfer.Socket.{Recv, Host, Net, fill_buffer}
use reliable_data_transfer.Run.{Run}
use reliable_data_transfer.Workers.{ProtoType, create_server_worker, send_message}
use reliable_data_transfer.Arguments.Parameters.{ServerParameters}
use reliable_data_transfer.Programs.Retries.{max_retries, attempt}

-- The overload of `receive_packet` without a timeout: `some none` is its `exit(1)`.
unfoldable pub receive_request : Recv → Option (Option Packet)
receive_request r =
    if ltb 0 (length r.bytes)
    then (deserialize_packet (fill_buffer (pck_data_size + pck_header_size) r) >>= λ packet.
        some (some packet))
    else some none

-- `string(filePath)`: up to the first zero, and past the array's end if there is none.
unfoldable pub c_string : List ℕ → Option (List ℕ)
c_string [] = none
c_string (b ∷ bytes) =
    let rest = c_string bytes >>= λ text. some (b ∷ text) in if b == 0 then some [] else rest

-- `char filePath[PCK_DATA_SIZE + 1]`, cleared, with `pck.len - PCK_HEADER_SIZE` bytes copied into it.
-- Below 8 that is negative, and so beyond every array.
unfoldable pub request_path : Packet → Option (List ℕ)
request_path pck =
    if ltb pck.len pck_header_size
    then none
    else (memcpy (zero_bytes (pck_data_size + 1)) pck.payload (pck.len - pck_header_size)
        >>= (λ bytes. c_string bytes))

-- The fields of the class `Server`.
pub record Server (F : Type 0) : Type 0 where
  pub loss_prob : F
  pub port : ℕ
  pub slide_window : ℕ
  pub seed : ℕ

-- The constructor, with what `readServerParameters` has read: `none` is `exit(1)`.
unfoldable pub new_server : {F : Type 0} → Option (ServerParameters F) → Option (Server F)
new_server none = none
new_server (some params) = some (record {
  loss_prob = params.loss_prob;
  port = params.serv_port;
  slide_window = params.window_size;
  seed = params.seed;
})

-- How a child ends: no socket, a file that cannot be read, or behind `send_message`, which is
-- followed for so many rounds.
pub data ChildEnd (h : Host) : Type 0 where
  no_socket : ChildEnd h
  no_file : ChildEnd h
  served : Run (Net h) (Net h) → ChildEnd h

module _ (h : Host) (socket : Host.World h → Bool × Host.World h) (disk : Disk)
    (dup_acks : List ℕ) where
  -- The child process for one request. The loss probability and the seed are in what `h` draws, and
  -- `dup_acks` are the numbers in `control.cc`.
  unfoldable pub serve :
      {F : Type 0}
      → ProtoType
      → Server F
      → (rounds : ℕ) → Packet
      → Host.World h
      → Option (ChildEnd h)
  serve type server rounds pck w =
      let (opened, w) = attempt max_retries socket w in
      if opened
      then (request_path pck >>= λ path.
          let (feeder, found) = read_file disk new_feeder path in
          some (
            if found
            then served (
                send_message h (create_server_worker type) rounds server.slide_window dup_acks
                  feeder (record { world = w; sent = [] }))
            else no_file))
      else some no_socket

-- The loop of the parent over what its `recvfrom` brings, with whether each `fork` succeeds: the
-- requests that have a child, and whether the loop has been left by `exit(1)`.
unfoldable pub listen : List (Recv × Bool) → Option (List Packet × Bool)
listen [] = some ([], false)
listen ((r, forked) ∷ rs) = receive_request r >>= λ pck. elim pck [
  | none ↦ some ([], true)
  | some pck ↦ listen rs >>= λ (pcks, left). some (if forked then pck ∷ pcks else pcks, left)
]

-- The calls of the parent: whether `socket` and `bind` to a port succeed, and what `recvfrom` and
-- `fork` bring from then on.
pub record ServerHost : Type 1 where
  pub World : Type 0
  pub socket : World → Bool × World
  pub bind : ℕ → World → Bool × World
  pub requests : World → List (Recv × Bool)

-- How `start` ends: two early returns, or in the loop.
pub data ServerEnd (W : Type 0) : Type 0 where
  not_opened : W → ServerEnd W
  not_bound : W → ServerEnd W
  listened : List Packet × Bool → ServerEnd W

module _ (h : ServerHost) where
  open h use {World, socket, bind, requests}

  unfoldable pub start : {F : Type 0} → Server F → World → Option (ServerEnd World)
  start server w =
      let (opened, w) = attempt max_retries socket w in
      if opened
      then (let (bound, w) = attempt max_retries (bind (u16 server.port)) w in
          if bound
          then (listen (requests w) >>= λ heard. some (listened heard))
          else some (not_bound w))
      else some (not_opened w)
