-- ===== src/FileSystem/Directories/Tests.antt =====
-- The directories on the way to an output file.
use reliable_data_transfer.Base.{take, List, true, [], ◌∷◌, ◌++◌, some, refl, arith, ◌≡◌}
use reliable_data_transfer.FileSystem.{FilePath}
use reliable_data_transfer.FileSystem.Directories.{make_directories, drop_slash, make_all}
use reliable_data_transfer.FileSystem.Directories.Ancestors.{
  IsName, first_directory, below, descend, make_directories_ancestors,
}

-- `/tmp/a/b`.
abbrev tmp : FilePath
tmp = b't' ∷ b'm' ∷ b'p' ∷ []

abbrev names : List FilePath
names = (b'a' ∷ []) ∷ (b'b' ∷ []) ∷ []

tmp-IsName : IsName tmp
tmp-IsName = record { some_byte = omega arith; no_slash = (refl, (refl, (refl, tt))) }

make_directories_ancestors_example :
    (make_directories (first_directory true tmp ++ below names)
      ≡ some (descend (first_directory true tmp) names))
    × (make_directories ((first_directory true tmp ++ below names) ++ b'/' ∷ [])
        ≡ some (descend (first_directory true tmp) names))
unfolding first_directory below
make_directories_ancestors_example =
    make_directories_ancestors true tmp names tmp-IsName
      (
        record { some_byte = omega arith; no_slash = (refl, tt) },
        (record { some_byte = omega arith; no_slash = (refl, tt) }, tt),
      )
      (omega arith)

-- The root is a call with no name, and the empty string a read in front of the array.
make_directories_root : make_directories (b'/' ∷ []) ≡ some ([] ∷ [])
unfolding make_directories drop_slash make_all take
make_directories_root = refl
