-- ===== src/FileSystem/Streams.antt =====
-- file_system/: what the streams do while nothing fails.
use reliable_data_transfer.Base.{
  ℕ, ◌-◌, ◌≤◌, true, List, [], ◌++◌, some, ◌≡◌, refl, arith, length, take, drop, length-take,
  le→leb,
}
use reliable_data_transfer.Packet.{zero_bytes}
use reliable_data_transfer.Packet.Copy.{zero_bytes_none}
use reliable_data_transfer.FileSystem.{
  FilePath, Disk, FileHandler, check_file, set_read_file, set_reader_file, get_file_size,
  open_ifstream, read_chunk, read_reader_chunk, read_from, read_stream, write_chunk,
  write_writer_chunk, set_write_file, set_writer_file,
}

module _ (disk : Disk) (path : FilePath) (file : List ℕ) (exists : disk path ≡ some file) where
  pub check_file_exists : check_file disk path ≡ true
  unfolding check_file open_ifstream
  check_file_exists = rw (exists, check_file) refl

  pub get_file_size_exists : get_file_size disk path ≡ length file
  unfolding get_file_size open_ifstream
  get_file_size_exists = rw (exists, get_file_size) refl

pub set_read_file_exists :
    (disk : Disk) (handler : FileHandler) (path : FilePath) (file : List ℕ)
    → disk path ≡ some file
    → set_read_file disk handler path
      ≡ record handler { reader = record { ifs = some (record { rest = file; good = true }) } }
unfolding set_read_file set_reader_file open_ifstream
set_read_file_exists disk handler path file exists = rw (exists, open_ifstream) refl

-- Reading within the file: the stream advances, and the array keeps its bytes beyond `size`.
pub read_chunk_within :
    (handler : FileHandler) (rest buff : List ℕ) (size : ℕ)
    → handler.reader ≡ record { ifs = some (record { rest = rest; good = true }) }
    → size ≤ length rest
    → read_chunk handler size buff ≡ (
      record handler {
        reader = record { ifs = some (record { rest = drop size rest; good = true }) };
      },
      take size rest ++ drop size buff,
      size,
    )
unfolding read_chunk read_reader_chunk read_from read_stream
read_chunk_within handler rest buff size e h =
    rw e (rw (le→leb size (length rest) h, count, no_zeros) refl)
  where
    count : length (take size rest) ≡ size
    count = omega (arith, length-take size rest)

    no_zeros : zero_bytes (size - size) ≡ []
    no_zeros = zero_bytes_none (size - size) (omega arith)

-- Writing to a stream that has not failed appends.
pub write_chunk_good :
    (handler : FileHandler) (path : FilePath) (written bytes : List ℕ) (size : ℕ)
    → handler.writer
      ≡ record { ofs = some (record { path = path; written = written; good = true }) }
    → write_chunk handler bytes size ≡ (
      record handler {
        writer = record {
          ofs = some (record { path = path; written = written ++ take size bytes; good = true });
        };
      },
      true,
    )
unfolding write_chunk write_writer_chunk
write_chunk_good handler path written bytes size e = rw e refl

-- Opening for writing, where that succeeds, gives an empty file.
pub set_write_file_open :
    (handler : FileHandler) (path : FilePath)
    → set_write_file true handler path ≡ record handler {
      writer = record { ofs = some (record { path = path; written = []; good = true }) };
    }
unfolding set_write_file set_writer_file
set_write_file_open handler path = refl
