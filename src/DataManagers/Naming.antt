-- ===== src/DataManagers/Naming.antt =====
-- DataSink.cpp: the name of the file that a sink writes to.
use reliable_data_transfer.Base.{
  ℕ, Bool, List, [], ◌∷◌, ◌++◌, Option, none, some, ◌≡◌, refl, inl, inr, if-both, Option-cases,
}
use reliable_data_transfer.Packet.{Packet, PacketCoreData, create_core_packet}
use reliable_data_transfer.FileSystem.{
  FilePath, FileHandler, FileWriter, write_chunk, write_writer_chunk, set_write_file,
  set_writer_file,
}
use reliable_data_transfer.DataManagers.{DataSink, feed_next_data, set_sink_file}
use reliable_data_transfer.Run.{or_fault, Ensures, bind-Ensures, or_fault-Ensures}

-- The name of the file that the sink writes to.
abbrev pub file_name : DataSink → Option FilePath
file_name sink = elim sink.file_handler.writer.ofs [ none ↦ none | some ofs ↦ some ofs.path ]

-- The property holds of what the piece returns, if it returns.
abbrev pub Always : {A : Type 0} → (A → Type 0) → Option A → Type 0
Always P o = Ensures {S = Unit} (λ u. Unit) P (or_fault o)

pub set_sink_file-name :
    (can_open : Bool) (sink : DataSink) (path : FilePath)
    → file_name (set_sink_file can_open sink path) ≡ some path
unfolding set_sink_file set_write_file set_writer_file
set_sink_file-name can_open sink path = refl

write_chunk-name :
    (handler : FileHandler) (bytes : List ℕ) (size : ℕ) (packets packets' : List Packet)
    → file_name (record { file_handler = (write_chunk handler bytes size).0; packets = packets' })
      ≡ file_name (record { file_handler = handler; packets = packets })
unfolding write_chunk write_writer_chunk
write_chunk-name handler bytes size packets packets' = elim (Option-cases handler.writer.ofs) [
  | inl closed ↦ rw closed refl
  | inr (ofs, e) ↦ rw e (
      if-both
        (λ (r : FileWriter × Bool).
          file_name (record { file_handler = record handler { writer = r.0 }; packets = packets' })
          ≡ some ofs.path)
        ofs.good _ _ (λ _. refl) (λ _. refl))
]

pub feed_next_data-name :
    (sink : DataSink) (core : PacketCoreData) (seq_no : ℕ)
    → Always (λ sink'. file_name sink' ≡ file_name sink) (feed_next_data sink core seq_no)
unfolding feed_next_data or_fault
feed_next_data-name sink core seq_no =
    bind-Ensures {S = Unit} (λ u. Unit) (λ pack. Unit) (λ sink'. file_name sink' ≡ file_name sink)
      (create_core_packet core seq_no) _
      (or_fault-Ensures {S = Unit} (λ u. Unit) (λ pack. Unit) (create_core_packet core seq_no)
        (λ pack e. tt))
      (λ pack u.
        write_chunk-name sink.file_handler core.payload core.size sink.packets
          (sink.packets ++ pack ∷ []))
