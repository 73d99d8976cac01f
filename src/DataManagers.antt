-- ===== src/DataManagers.antt =====
-- data_managers/: the feeder cuts a file into segments, and the sink writes segments to a file.
pub mod Feeding
pub mod Sinking
pub mod Naming
pub mod Draining
pub mod Reading
mod Tests
use reliable_data_transfer.Base.{
  ℕ, ◌+◌, ◌-◌, Bool, true, false, not, ◌||◌, List, [], ◌∷◌, ◌++◌, Option, none, some, ltb, ◌==◌,
  if◌then◌else◌, ◌>>=◌,
}
use reliable_data_transfer.Packet.{
  Packet, PacketCoreData, zero_bytes, create_core_packet, pck_data_size,
}
use reliable_data_transfer.FileSystem.{
  FilePath, Disk, FileHandler, new_handler, check_file, set_read_file, set_write_file, read_chunk,
  write_chunk, get_file_size,
}

pub record DataFeeder : Type 0 where
  pub file_handler : FileHandler
  pub remain_size : ℕ
  pub last_packet : Bool

pub new_feeder : DataFeeder
new_feeder = record { file_handler = new_handler; remain_size = 0; last_packet = false }

pub read_file : Disk → DataFeeder → FilePath → DataFeeder × Bool
read_file disk feeder path =
    if check_file disk path
    then (
      record feeder {
        file_handler = set_read_file disk feeder.file_handler path;
        remain_size = get_file_size disk path;
      },
      true,
    )
    else (feeder, false)

pub has_next : DataFeeder → Bool
has_next feeder = ltb 0 feeder.remain_size || not feeder.last_packet

-- Reads `size` bytes into the segment and leaves `remain` bytes to be read.
pub next_segment : DataFeeder → ℕ → ℕ → DataFeeder × PacketCoreData
next_segment feeder size remain =
    let (handler, bytes, _) = read_chunk feeder.file_handler size (zero_bytes pck_data_size) in
    (
      record feeder { file_handler = handler; remain_size = remain },
      record { size = size; payload = bytes },
    )

pub get_next_data_segment : DataFeeder → DataFeeder × PacketCoreData
get_next_data_segment feeder =
    if ltb pck_data_size feeder.remain_size
    then next_segment feeder pck_data_size (feeder.remain_size - pck_data_size)
    else if feeder.remain_size == 0
    then (
      record feeder { last_packet = true },
      record { size = 0; payload = zero_bytes pck_data_size },
    )
    else next_segment feeder feeder.remain_size 0

pub record DataSink : Type 0 where
  pub file_handler : FileHandler
  pub packets : List Packet

unfoldable pub new_sink : DataSink
new_sink = record { file_handler = new_handler; packets = [] }

unfoldable pub set_sink_file : Bool → DataSink → FilePath → DataSink
set_sink_file can_open sink path = record sink {
  file_handler = set_write_file can_open sink.file_handler path;
}

pub feed_next_data : DataSink → PacketCoreData → ℕ → Option DataSink
feed_next_data sink core seq_no = do
  let (handler, _) = write_chunk sink.file_handler core.payload core.size
  pack ← create_core_packet core seq_no
  some (record { file_handler = handler; packets = sink.packets ++ pack ∷ [] })
