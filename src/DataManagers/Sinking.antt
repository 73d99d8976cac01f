-- ===== src/DataManagers/Sinking.antt =====
-- DataSink.cpp: what a sink with an open file has written.
use reliable_data_transfer.Base.{
  ℕ, ◌+◌, ◌≤◌, true, List, [], ◌∷◌, ◌++◌, some, ◌≡◌, refl, arith, length, take, ◌*◌, ap, subst, ◌∙◌,
  take-append-take-drop,
}
use reliable_data_transfer.Packet.{PacketCoreData}
use reliable_data_transfer.Packet.Copy.{data_packet, create_core_packet_fits}
use reliable_data_transfer.FileSystem.Streams.{write_chunk_good, set_write_file_open}
use reliable_data_transfer.FileSystem.{FileHandler, FilePath}
use reliable_data_transfer.DataManagers.{DataSink, feed_next_data, set_sink_file}
use reliable_data_transfer.DataManagers.Feeding.{segment, take-segment, segment_fits}

-- The sink's file is open and holds these bytes.
pub record Holds (written : List ℕ) (sink : DataSink) : Type 0 where
  pub path : FilePath
  pub stream :
      sink.file_handler.writer
      ≡ record { ofs = some (record { path = path; written = written; good = true }) }

-- Feeding a segment that fits its array appends its bytes to the file and keeps its packet.
pub feed_next_data-Holds :
    (written : List ℕ) (sink : DataSink) (core : PacketCoreData) (seq_no : ℕ)
    → Holds written sink
    → core.size ≤ 512
    → core.size ≤ length core.payload
    → (sink' : DataSink) × (feed_next_data sink core seq_no ≡ some sink')
      × Holds (written ++ take core.size core.payload) sink'
      × (sink'.packets ≡ sink.packets ++ data_packet core.payload core.size seq_no ∷ [])
unfolding feed_next_data
feed_next_data-Holds written sink core seq_no h fits there = (
  record {
    file_handler = record sink.file_handler {
      writer = record {
        ofs = some (record {
          path = h.path;
          written = written ++ take core.size core.payload;
          good = true;
        });
      };
    };
    packets = sink.packets ++ data_packet core.payload core.size seq_no ∷ [];
  },
  rw
      (
        write_chunk_good sink.file_handler h.path written core.payload core.size h.stream,
        create_core_packet_fits core seq_no fits there,
      )
      refl,
  record { path = h.path; stream = refl },
  refl,
)

-- A sink that holds the first `i` segments of a file holds one more when it is fed the next.
pub feed-segment :
    (file : List ℕ) (i : ℕ) (sink : DataSink) (seq_no : ℕ)
    → Holds (take (512 * i) file) sink
    → (sink' : DataSink) × (feed_next_data sink (segment file i) seq_no ≡ some sink')
      × Holds (take (512 * (i + 1)) file) sink'
feed-segment file i sink seq_no h =
    let (sink', e, h', _) =
      feed_next_data-Holds (take (512 * i) file) sink (segment file i) seq_no h
        (segment_fits file i).0 (omega (arith, segment_fits file i)) in
    (sink', e, subst (λ bytes. Holds bytes sink') longer h')
  where
    longer :
        take (512 * i) file ++ take (segment file i).size (segment file i).payload
        ≡ take (512 * (i + 1)) file
    longer =
        ap (◌++◌ (take (512 * i) file)) (take-segment file i)
        ∙ take-append-take-drop (512 * i) 512 (512 * (i + 1)) file (omega arith)

pub set_sink_file-Holds :
    (sink : DataSink) (path : FilePath) → Holds [] (set_sink_file true sink path)
unfolding set_sink_file
set_sink_file-Holds sink path = record {
  path = path;
  stream = ap (λ (h : FileHandler). h.writer) (set_write_file_open sink.file_handler path);
}
