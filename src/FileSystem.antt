-- ===== src/FileSystem.antt =====
-- file_system/: readers and writers over the standard streams. A file is the list of its bytes;
-- which files exist, and whether a file can be opened for writing, is an argument.
pub mod Streams
pub mod Directories
use reliable_data_transfer.Base.{
  ℕ, ◌-◌, Bool, true, false, not, List, [], ◌++◌, Option, none, some, leb, if◌then◌else◌, length,
  take, drop,
}
use reliable_data_transfer.Packet.{zero_bytes}

abbrev pub FilePath : Type 0
FilePath = List ℕ

-- The files that exist.
abbrev pub Disk : Type 0
Disk = FilePath → Option (List ℕ)

-- `ifstream`: what is still to be read, and whether no read has failed.
pub record Ifstream : Type 0 where
  pub rest : List ℕ
  pub good : Bool

-- `ofstream`: the name of the file and what has been written.
pub record Ofstream : Type 0 where
  pub path : FilePath
  pub written : List ℕ
  pub good : Bool

-- `none` is the null pointer.
pub record FileReader : Type 0 where
  pub ifs : Option Ifstream

pub record FileWriter : Type 0 where
  pub ofs : Option Ofstream

-- A file that cannot be opened gives a stream that has failed.
pub open_ifstream : Option (List ℕ) → Ifstream
open_ifstream none = record { rest = []; good = false }
open_ifstream (some bytes) = record { rest = bytes; good = true }

pub new_reader : FileReader
new_reader = record { ifs = none }

pub set_reader_file : Disk → FileReader → FilePath → FileReader
set_reader_file disk reader path = record { ifs = some (open_ifstream (disk path)) }

-- `ifs->read(buff, size)` after `memset(buff, 0, size)`: the new stream, the buffer and `gcount`.
-- A read that meets the end of the file fails the stream.
pub read_stream : Ifstream → ℕ → List ℕ → Ifstream × List ℕ × ℕ
read_stream ifs size buff =
    let got = take size ifs.rest in
    (
      record { rest = drop size ifs.rest; good = leb size (length ifs.rest) },
      got ++ (zero_bytes (size - length got) ++ drop size buff),
      length got,
    )

-- The null pointer and a failed stream give zeros.
pub read_failed : FileReader → ℕ → List ℕ → FileReader × List ℕ × ℕ
read_failed reader size buff = (reader, zero_bytes size ++ drop size buff, 0)

pub read_from : FileReader → Ifstream → ℕ → List ℕ → FileReader × List ℕ × ℕ
read_from reader ifs size buff =
    if ifs.good
    then (let (ifs', buff', count) = read_stream ifs size buff in
        (record { ifs = some ifs' }, buff', count))
    else read_failed reader size buff

pub read_reader_chunk : FileReader → ℕ → List ℕ → FileReader × List ℕ × ℕ
read_reader_chunk reader size buff = elim reader.ifs [
  | none ↦ read_failed reader size buff
  | some ifs ↦ read_from reader ifs size buff
]

pub new_writer : FileWriter
new_writer = record { ofs = none }

-- Opening truncates. `can_open` is whether the directories could be made and the file opened.
unfoldable pub set_writer_file : Bool → FileWriter → FilePath → FileWriter
set_writer_file can_open writer path = record {
  ofs = some (record { path = path; written = []; good = can_open });
}

-- `chunk` holds at least `size` bytes, as every caller's array does.
unfoldable pub write_writer_chunk : FileWriter → List ℕ → ℕ → FileWriter × Bool
write_writer_chunk writer chunk size = elim writer.ofs [
  | none ↦ (writer, false)
  | some ofs ↦
      if ofs.good
      then (record { ofs = some (record ofs { written = ofs.written ++ take size chunk }) }, true)
      else (writer, false)
]

pub record FileHandler : Type 0 where
  pub reader : FileReader
  pub writer : FileWriter

pub new_handler : FileHandler
new_handler = record { reader = new_reader; writer = new_writer }

pub check_file : Disk → FilePath → Bool
check_file disk path = (open_ifstream (disk path)).good

pub set_read_file : Disk → FileHandler → FilePath → FileHandler
set_read_file disk handler path = record handler {
  reader = set_reader_file disk handler.reader path;
}

unfoldable pub set_write_file : Bool → FileHandler → FilePath → FileHandler
set_write_file can_open handler path = record handler {
  writer = set_writer_file can_open handler.writer path;
}

pub read_chunk : FileHandler → ℕ → List ℕ → FileHandler × List ℕ × ℕ
read_chunk handler size buff =
    let (reader, buff', count) = read_reader_chunk handler.reader size buff in
    (record handler { reader = reader }, buff', count)

pub get_file_size : Disk → FilePath → ℕ
get_file_size disk path = length (open_ifstream (disk path)).rest

unfoldable pub write_chunk : FileHandler → List ℕ → ℕ → FileHandler × Bool
write_chunk handler chunk size =
    let (writer, done) = write_writer_chunk handler.writer chunk size in
    (record handler { writer = writer }, done)
