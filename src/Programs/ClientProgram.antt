-- ===== src/Programs/ClientProgram.antt =====
-- client/client.cpp: `start`. The system calls are those of a `ClientHost`; what is printed and the
-- time taken are left out.
use reliable_data_transfer.Base.{
  ℕ, zero, suc, Bool, true, false, List, [], ◌∷◌, ◌++◌, Option, none, some, if◌then◌else◌, ◌>>=◌,
  u16, length,
}
use reliable_data_transfer.Packet.{Packet, create_data_packet}
use reliable_data_transfer.Serial.{serialize_packet}
use reliable_data_transfer.DataManagers.{new_sink, set_sink_file}
use reliable_data_transfer.Socket.{Recv}
use reliable_data_transfer.Workers.{ProtoType, create_client_worker, Received, recv_message}
use reliable_data_transfer.Arguments.Parameters.{ClientParameters}
use reliable_data_transfer.Programs.Retries.{max_retries, attempt}

-- Whether `socket`, `bind` to a port and `sendto` succeed, whether `recv` with MSG_PEEK brings anything before
-- its timeout, what the calls of `recvfrom` bring from then on, and whether the file that is to be
-- written can be opened.
pub record ClientHost : Type 1 where
  pub World : Type 0
  pub socket : World → Bool × World
  pub bind : ℕ → World → Bool × World
  pub sendto : List ℕ → World → Bool × World
  pub peek : World → Bool × World
  pub arrivals : World → List Recv
  pub can_open : World → Bool

-- The fields of the class `Client`.
pub record Client (A : Type 0) : Type 0 where
  pub server_ip : A
  pub server_port : ℕ
  pub port : ℕ
  pub recv_window : ℕ
  pub filename : List ℕ

-- The constructor, with what `readClientParameters` has read: `none` is `exit(1)`.
unfoldable pub new_client : {A : Type 0} → Option (ClientParameters A) → Option (Client A)
new_client none = none
new_client (some params) = some (record {
  server_ip = params.in_add;
  server_port = params.serv_port;
  port = params.cli_port;
  recv_window = params.window_size;
  filename = params.filename;
})

-- How `start` ends: the four early returns, or behind `recv_message`.
pub data ClientEnd (W : Type 0) : Type 0 where
  not_opened : W → ClientEnd W
  not_bound : W → ClientEnd W
  not_sent : W → ClientEnd W
  not_answered : W → ClientEnd W
  received : Received → ClientEnd W

-- `create_data_packet(filename.c_str(), (uint16_t)filename.size(), 0)`.
unfoldable pub request_packet : List ℕ → Option Packet
request_packet filename = create_data_packet (filename ++ 0 ∷ []) (u16 (length filename)) 0

module _ (h : ClientHost) where
  open h use {World, socket, bind, sendto, peek, arrivals, can_open}

  -- How the request went.
  pub data Asked : Type 0 where
    unsent : World → Asked
    unanswered : World → Asked
    answered : World → Asked

  -- `while (error && ntry < RETRIES)`, with so many rounds left: the request is sent, and the first
  -- answer awaited.
  unfoldable pub ask : ℕ → Packet → World → Asked
  ask zero pack w = unanswered w
  ask (suc left) pack w =
      let (sent, w) = attempt max_retries (sendto (serialize_packet pack)) w in
      elim sent [
        | false ↦ unsent w
        | true ↦
            let (some_answer, w) = peek w in
            elim some_answer [ true ↦ answered w | false ↦ ask left pack w ]
      ]

  -- Behind the first answer.
  unfoldable pub receive_file :
      {A : Type 0} → ProtoType → Client A → World → Option (ClientEnd World)
  receive_file type client w =
      let sink = set_sink_file (can_open w) new_sink client.filename in
      recv_message (create_client_worker type) client.recv_window sink (arrivals w) >>= λ c.
      some (received c)

  unfoldable pub request : {A : Type 0} → ProtoType → Client A → World → Option (ClientEnd World)
  request type client w = request_packet client.filename >>= λ pack. elim (ask max_retries pack w) [
    | unsent w ↦ some (not_sent w)
    | unanswered w ↦ some (not_answered w)
    | answered w ↦ receive_file type client w
  ]

  unfoldable pub start : {A : Type 0} → ProtoType → Client A → World → Option (ClientEnd World)
  start type client w =
      let (opened, w) = attempt max_retries socket w in
      if opened
      then (let (bound, w) = attempt max_retries (bind (u16 client.port)) w in
          if bound then request type client w else some (not_bound w))
      else some (not_opened w)
