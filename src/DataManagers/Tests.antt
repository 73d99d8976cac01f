-- ===== src/DataManagers/Tests.antt =====
-- data_managers/ on a small file.
use reliable_data_transfer.Base.{
  ℕ, suc, ◌+◌, ◌/◌, ◌≡◌, refl, false, List, [], ◌∷◌, some, arith, length,
}
use reliable_data_transfer.FileSystem.{Disk}
use reliable_data_transfer.DataManagers.{new_feeder, read_file, has_next}
use reliable_data_transfer.DataManagers.Draining.{drain, contents, segments, drain-read_file}

-- Every path names the file of three bytes.
abbrev three_bytes : List ℕ
three_bytes = 5 ∷ 6 ∷ 7 ∷ []

abbrev disk : Disk
disk path = some three_bytes

drain-read_file_example :
    let (last, cores) = drain 2 (read_file disk new_feeder []).0 in
    (has_next last ≡ false)
    × (cores ≡ segments (suc ((length three_bytes + 511) / 512)) three_bytes 0)
    × (contents cores ≡ three_bytes)
drain-read_file_example = drain-read_file disk [] three_bytes 2 refl (omega arith)
