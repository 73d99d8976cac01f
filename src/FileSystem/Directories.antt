-- ===== src/FileSystem/Directories.antt =====
-- file_system/file_writer.cpp: `_mkdir`, which `FileWriter::set_file` calls with the directory part
-- of the path of an output file. A C string is the list of its bytes before the zero. `none` stands
-- for undefined behaviour.
pub mod Ancestors
mod Tests
use reliable_data_transfer.Base.{
  ℕ, ◌-◌, List, [], ◌∷◌, ◌++◌, Option, none, some, ◌==◌, take, if◌then◌else◌, ◌>>=◌,
}
use reliable_data_transfer.FileSystem.{FilePath}

-- `PATH_MAX` of the Linux headers.
abbrev pub path_max : ℕ
path_max = 4096

-- `if (tmp[len - 1] == '/') tmp[len - 1] = 0`. Of an empty string it reads in front of the array.
unfoldable pub drop_slash : FilePath → Option FilePath
drop_slash [] = none
drop_slash (ch ∷ []) = if ch == b'/' then some [] else some (ch ∷ [])
drop_slash (ch ∷ next ∷ tmp) = drop_slash (next ∷ tmp) >>= λ rest. some (ch ∷ rest)

-- The loop over `p`, which has passed `before`: a call of `mkdir` with what stands before each slash.
unfoldable pub make_parents : (before : FilePath) → (p : FilePath) → List FilePath
make_parents before [] = []
make_parents before (ch ∷ p) =
    let later = make_parents (before ++ ch ∷ []) p in if ch == b'/' then before ∷ later else later

-- The loop starts at the second byte, and a last call follows it. The zero in the place of a slash
-- that is alone has the old one behind it.
unfoldable pub make_all : FilePath → List FilePath
make_all [] = [] ∷ []
make_all (ch ∷ p) = make_parents (ch ∷ []) p ++ (ch ∷ p) ∷ []

-- `_mkdir(dir)`: the paths that `mkdir` is called with, one after the other. What the calls return is
-- not looked at.
unfoldable pub make_directories : FilePath → Option (List FilePath)
make_directories dir = drop_slash (take (path_max - 1) dir) >>= λ tmp. some (make_all tmp)
