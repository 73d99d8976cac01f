-- ===== src/Workers.antt =====
-- workers/WorkerFactory.cpp, and the calls of the workers through `ClientWorker` and `ServerWorker`.
pub mod Naming
pub mod Transfers
pub mod Growing
pub mod Ending
pub mod Completing
mod Tests
use Prim.Native.String.{String}
use reliable_data_transfer.Base.{ℕ, Bool, not, List, [], Option, some, ◌==◌, if◌then◌else◌, ◌>>=◌}
use reliable_data_transfer.DataManagers.{DataSink, DataFeeder}
use reliable_data_transfer.Socket.{Recv, Host, Net}
use reliable_data_transfer.Run.{Run, fault, unfinished, returned, done}
use reliable_data_transfer.StopWait.Client as StopWaitSide
use reliable_data_transfer.StopWait.Server as StopWaitPeer
use reliable_data_transfer.StopWait.Server.{StopWaitServer}
use reliable_data_transfer.GoBackN.Client as GoBackSide
use reliable_data_transfer.GoBackN.Server as GoBackPeer
use reliable_data_transfer.GoBackN.Server.{GoBackServer}
use reliable_data_transfer.SelectiveRepeat.Client as SelectiveSide
use reliable_data_transfer.SelectiveRepeat.Server as SelectivePeer
use reliable_data_transfer.SelectiveRepeat.Server.{SelectiveRepeatServer}
use reliable_data_transfer.SelectiveRepeatCc.Client as CongestionSide
use reliable_data_transfer.SelectiveRepeatCc.Server as CongestionPeer

-- `enum class PROTO_TYPE`.
pub data ProtoType : Type 0 where
  wait_and_stop : ProtoType
  selective_repeat : ProtoType
  go_back_n : ProtoType
  selective_repeat_cc : ProtoType

-- The classes of the objects that the factory makes.
pub data ClientWorker : Type 0 where
  stop_wait_client : ClientWorker
  selective_repeat_client : ClientWorker
  go_back_client : ClientWorker
  selective_repeat_cc_client : ClientWorker

pub data ServerWorker : Type 0 where
  stop_wait_server : ServerWorker
  selective_repeat_server : ServerWorker
  go_back_server : ServerWorker
  selective_repeat_cc_server : ServerWorker

unfoldable pub create_client_worker : ProtoType → ClientWorker
create_client_worker go_back_n = go_back_client
create_client_worker selective_repeat = selective_repeat_client
create_client_worker wait_and_stop = stop_wait_client
create_client_worker selective_repeat_cc = selective_repeat_cc_client

unfoldable pub create_server_worker : ProtoType → ServerWorker
create_server_worker go_back_n = go_back_server
create_server_worker selective_repeat = selective_repeat_server
create_server_worker wait_and_stop = stop_wait_server
create_server_worker selective_repeat_cc = selective_repeat_cc_server

unfoldable pub obtain_type : ℕ → ProtoType
obtain_type id =
    if id == 4
    then selective_repeat_cc
    else if id == 3
    then go_back_n
    else if id == 2
    then selective_repeat
    else if id == 1
    then wait_and_stop
    else wait_and_stop

unfoldable pub type_to_string : ProtoType → String
type_to_string go_back_n = "Go Back N"
type_to_string selective_repeat = "Selective Repeat"
type_to_string wait_and_stop = "Wait & Stop"
type_to_string selective_repeat_cc = "Selective Repeat with Congestion Control"

-- What a call of `recv_message` leaves: the sink, whether the loop has ended, and the
-- acknowledgements that went out.
pub record Received : Type 0 where
  pub sink : DataSink
  pub over : Bool
  pub sent : List (List ℕ)

-- `worker->recv_message(socket, &sink, window)` on a new worker.
unfoldable pub recv_message : ClientWorker → ℕ → DataSink → List Recv → Option Received
recv_message stop_wait_client window sink rs =
    StopWaitSide.recv_message (StopWaitSide.new_client sink) rs >>= λ c.
    some (record { sink = c.sink; over = c.end; sent = c.sent })
recv_message go_back_client window sink rs =
    GoBackSide.recv_message (GoBackSide.new_client sink) rs >>= λ c.
    some (record { sink = c.sink; over = c.end; sent = c.sent })
recv_message selective_repeat_client window sink rs =
    SelectiveSide.recv_message window (SelectiveSide.new_client sink) rs >>= λ c.
    some (record { sink = c.sink; over = not (SelectiveSide.running c); sent = c.sent })
recv_message selective_repeat_cc_client window sink rs =
    CongestionSide.recv_message window (SelectiveSide.new_client sink) rs >>= λ c.
    some (record { sink = c.sink; over = not (SelectiveSide.running c); sent = c.sent })

-- The outcome seen through a function of the state.
unfoldable pub seen : {S T : Type 0} → (S → T) → Run S S → Run T T
seen f fault = fault
seen f (unfinished s) = unfinished (f s)
seen f (returned s) = returned (f s)
seen f (done s) = done (f s)

module _ (h : Host) where
  -- New workers. Their fields are zero, as `new T()` leaves them, and empty.
  unfoldable pub new_stop_wait : DataFeeder → Net h → StopWaitServer h
  new_stop_wait feeder net = record {
    seq_no = 0;
    error = Bool.false;
    time_out = Bool.false;
    data_feeder = feeder;
    net = net;
  }

  unfoldable pub new_go_back : DataFeeder → Net h → GoBackServer h
  new_go_back feeder net = record {
    base_seq_no = 0;
    seq_no = 0;
    error = Bool.false;
    time_out = Bool.false;
    send_time = 0;
    unacked_packet = [];
    data_feeder = feeder;
    net = net;
  }

  -- Also the constructor of the worker with congestion control, but for what it reads from
  -- `control.cc`.
  unfoldable pub new_selective_repeat : DataFeeder → Net h → SelectiveRepeatServer h
  new_selective_repeat feeder net = record {
    base_seq_no = 0;
    seq_no = 0;
    send_order = [];
    seqnums_sent = [];
    data_sent = [];
    acks = [];
    error = Bool.false;
    time_out = Bool.false;
    data_feeder = feeder;
    net = net;
  }

  -- `worker->send_message(&feeder, loss_prob, socket, addr, window)` on a new worker: the socket
  -- afterwards. `dup_acks` are the numbers in `control.cc`.
  unfoldable pub send_message :
      ServerWorker → (rounds window : ℕ) → List ℕ → DataFeeder → Net h → Run (Net h) (Net h)
  send_message stop_wait_server rounds window dup_acks feeder net =
      seen (λ s. s.net) (StopWaitPeer.send_message h rounds (new_stop_wait feeder net))
  send_message go_back_server rounds window dup_acks feeder net =
      seen (λ s. s.net) (GoBackPeer.send_message h rounds window (new_go_back feeder net))
  send_message selective_repeat_server rounds window dup_acks feeder net =
      seen (λ s. s.net)
        (SelectivePeer.send_message h rounds window (new_selective_repeat feeder net))
  send_message selective_repeat_cc_server rounds window dup_acks feeder net =
      seen (λ s. s.core.net)
        (CongestionPeer.send_message h rounds window dup_acks (new_selective_repeat feeder net))
