-- ===== src/DataManagers/Feeding.antt =====
-- DataFeeder.cpp: the feeder hands out the file, 512 bytes at a time, and then one empty segment.
use reliable_data_transfer.Base.{
  ℕ, ◌+◌, ◌-◌, ◌*◌, ◌≤◌, ◌<◌, true, false, List, ◌++◌, some, ◌≡◌, refl, arith, length, take, drop,
  take-append, length-take, length-drop, min, length-append, drop-drop, drop_all, drop_zero,
  drop-take_all, take-take_all, ap, sym,
}
use reliable_data_transfer.Packet.{PacketCoreData, zero_bytes}
use reliable_data_transfer.Packet.Copy.{length-zero_bytes, padded}
use reliable_data_transfer.FileSystem.{FilePath, Disk, new_handler}
use reliable_data_transfer.FileSystem.Streams.{
  check_file_exists, get_file_size_exists, set_read_file_exists, read_chunk_within,
}
use reliable_data_transfer.DataManagers.{
  DataFeeder, new_feeder, read_file, has_next, next_segment, get_next_data_segment,
}

-- The bytes of the file from segment `i` on, and the first 512 of them.
abbrev pub from_segment : List ℕ → ℕ → List ℕ
from_segment file i = drop (512 * i) file

abbrev pub chunk : List ℕ → ℕ → List ℕ
chunk file i = take 512 (from_segment file i)

-- Segment `i` of a file: its bytes, in an array that is zero beyond them.
unfoldable pub segment : List ℕ → ℕ → PacketCoreData
segment file i = record {
  size = length (chunk file i);
  payload = chunk file i ++ drop (length (chunk file i)) (zero_bytes 512);
}

-- The bytes of a file's segment.
pub take-segment :
    (file : List ℕ) (i : ℕ) → take (segment file i).size (segment file i).payload ≡ chunk file i
unfolding segment
take-segment file i = take-append (chunk file i) _ (length (chunk file i)) refl

-- Cutting the segment's array off and filling it up again changes nothing.
pub padded-segment :
    (file : List ℕ) (i : ℕ)
    → padded (segment file i).payload (segment file i).size ≡ (segment file i).payload
unfolding segment
padded-segment file i =
    ap (λ bytes. bytes ++ drop (length (chunk file i)) (zero_bytes 512)) (take-segment file i)

-- The feeder is about to hand out segment `i`.
pub record Feeds (file : List ℕ) (i : ℕ) (feeder : DataFeeder) : Type 0 where
  pub stream :
      feeder.file_handler.reader
      ≡ record { ifs = some (record { rest = from_segment file i; good = true }) }
  pub remaining : feeder.remain_size ≡ length (from_segment file i)
  pub more : feeder.last_packet ≡ false

pub read_file-Feeds :
    (disk : Disk) (path : FilePath) (file : List ℕ)
    → disk path ≡ some file
    → ((read_file disk new_feeder path).1 ≡ true) × Feeds file 0 (read_file disk new_feeder path).0
unfolding read_file new_feeder
read_file-Feeds disk path file e = ground (
  arith,
  check_file_exists disk path file e,
  get_file_size_exists disk path file e,
  set_read_file_exists disk new_handler path file e,
  drop_zero file,
)

-- What stands in the array after a read of `size` bytes is the segment.
next_segment-Feeds :
    (file : List ℕ) (i : ℕ) (feeder : DataFeeder) (size remain : ℕ)
    → Feeds file i feeder
    → size ≡ length (chunk file i)
    → remain ≡ length (from_segment file (i + 1))
    → ((next_segment feeder size remain).1 ≡ segment file i)
      × Feeds file (i + 1) (next_segment feeder size remain).0
unfolding next_segment segment
next_segment-Feeds file i feeder size remain f e r = ground (
  arith,
  read_chunk_within feeder.file_handler (from_segment file i) (zero_bytes 512) size f.stream,
  length-take 512 (from_segment file i),
  take-take_all 512 (from_segment file i),
  drop-take_all 512 (from_segment file i),
  drop-drop (512 * i) 512 (512 * (i + 1)) file,
)

pub length-from_segment :
    (file : List ℕ) (i : ℕ) → length (from_segment file i) ≡ length file - 512 * i
length-from_segment file i = length-drop (512 * i) file

pub length-chunk : (file : List ℕ) (i : ℕ) → length (chunk file i) ≡ min 512 (length file - 512 * i)
length-chunk file i =
    omega (arith, length-take 512 (from_segment file i), length-from_segment file i)

pub segment_size : (file : List ℕ) (i : ℕ) → (segment file i).size ≡ length (chunk file i)
unfolding segment
segment_size file i = refl

pub segment_fits :
    (file : List ℕ) (i : ℕ)
    → ((segment file i).size ≤ 512) × (length (segment file i).payload ≡ 512)
unfolding segment
segment_fits file i = omega (
  arith,
  length-chunk file i,
  length-append (chunk file i) (drop (length (chunk file i)) (zero_bytes 512)),
  length-drop (length (chunk file i)) (zero_bytes 512),
  length-zero_bytes 512,
)

-- While bytes are left the feeder hands out the next segment of the file.
pub get_next_data_segment-Feeds :
    (file : List ℕ) (i : ℕ) (feeder : DataFeeder)
    → Feeds file i feeder
    → 512 * i < length file
    → ((get_next_data_segment feeder).1 ≡ segment file i)
      × Feeds file (i + 1) (get_next_data_segment feeder).0
unfolding get_next_data_segment
get_next_data_segment-Feeds file i feeder f more = ground (
  arith,
  next_segment-Feeds file i feeder 512 (feeder.remain_size - 512) f,
  next_segment-Feeds file i feeder feeder.remain_size 0 f,
  length-chunk file i,
  length-from_segment file i,
  length-from_segment file (i + 1),
)

-- Past the end of the file the segment is empty.
pub segment_end :
    (file : List ℕ) (i : ℕ)
    → length file ≤ 512 * i
    → segment file i ≡ record { size = 0; payload = zero_bytes 512 }
unfolding segment take drop
segment_end file i over = rw (drop_all (512 * i) file over) refl

-- Then it hands out an empty segment, once.
pub get_next_data_segment_last :
    (file : List ℕ) (i : ℕ) (feeder : DataFeeder)
    → Feeds file i feeder
    → length file ≤ 512 * i
    → ((get_next_data_segment feeder).1 ≡ segment file i)
      × (has_next (get_next_data_segment feeder).0 ≡ false)
unfolding get_next_data_segment has_next
get_next_data_segment_last file i feeder f over =
    let done : feeder.remain_size ≡ 0 = omega (arith, length-from_segment file i) in
    (
      rw (done, get_next_data_segment) (sym (segment_end file i over)),
      rw (done, get_next_data_segment) refl,
    )

pub has_next-Feeds :
    (file : List ℕ) (i : ℕ) (feeder : DataFeeder) → Feeds file i feeder → has_next feeder ≡ true
unfolding has_next
has_next-Feeds file i feeder f = ground arith
