-- ===== src/FileSystem/Directories/Ancestors.antt =====
-- file_system/file_writer.cpp: the directories that `_mkdir` makes are those on the way.
use reliable_data_transfer.Base.{
  ℕ, ◌+◌, ◌<◌, Bool, true, false, List, [], ◌∷◌, ◌++◌, some, ◌==◌, take_all, length, All,
  if◌then◌else◌, ◌≡◌, refl, sym, subst, ap, ◌∙◌, arith, append-nil, append_assoc, length-append,
}
use reliable_data_transfer.FileSystem.{FilePath}
use reliable_data_transfer.FileSystem.Directories.{
  path_max, drop_slash, make_parents, make_all, make_directories,
}

-- The name of a file in a directory.
pub record IsName (name : FilePath) : Type 0 where
  pub some_byte : 0 < length name
  pub no_slash : All (λ ch. (ch == b'/') ≡ false) name

-- Names with slashes in front of them.
unfoldable pub below : List FilePath → FilePath
below [] = []
below (name ∷ names) = b'/' ∷ (name ++ below names)

-- The directories on the way: the first, then each next one within the one before it.
unfoldable pub descend : FilePath → List FilePath → List FilePath
descend dir [] = dir ∷ []
descend dir (name ∷ names) = dir ∷ descend (dir ++ b'/' ∷ name) names

-- The root is not made.
unfoldable pub first_directory : (absolute : Bool) → FilePath → FilePath
first_directory false name = name
first_directory true name = b'/' ∷ name

-- The loop passes a name without a call.
make_parents-name :
    (before name p : FilePath)
    → All (λ ch. (ch == b'/') ≡ false) name
    → make_parents before (name ++ p) ≡ make_parents (before ++ name) p
unfolding make_parents
make_parents-name before [] p all = ap (λ b. make_parents b p) (sym (append-nil before))
make_parents-name before (ch ∷ name) p (here, all) = rw here (
    make_parents-name (before ++ ch ∷ []) name p all
    ∙ ap (λ b. make_parents b p) (append_assoc before (ch ∷ []) name))

make_parents-below :
    (dir : FilePath) (names : List FilePath)
    → All IsName names
    → make_parents dir (below names) ++ (dir ++ below names) ∷ [] ≡ descend dir names
unfolding make_parents below descend
make_parents-below dir [] all = ap (λ d. d ∷ []) (append-nil dir)
make_parents-below dir (name ∷ names) (here, all) = ap (◌∷◌ dir) (
    ap (λ calls. calls ++ (dir ++ b'/' ∷ (name ++ below names)) ∷ [])
      (make_parents-name (dir ++ b'/' ∷ []) name (below names) here.no_slash
        ∙ ap (λ b. make_parents b (below names)) (append_assoc dir (b'/' ∷ []) name))
    ∙ ap (λ last. make_parents (dir ++ b'/' ∷ name) (below names) ++ last ∷ [])
        (sym (append_assoc dir (b'/' ∷ name) (below names)))
    ∙ make_parents-below (dir ++ b'/' ∷ name) names all)

-- Its last byte is not a slash.
abbrev EndsPlain : FilePath → Type 0
EndsPlain p = (front : FilePath) × (ch : ℕ) × (p ≡ front ++ ch ∷ []) × ((ch == b'/') ≡ false)

EndsPlain-append : (front p : FilePath) → EndsPlain p → EndsPlain (front ++ p)
EndsPlain-append front p (start, ch, e, plain) =
    (front ++ start, ch, ap (λ q. front ++ q) e ∙ sym (append_assoc front start (ch ∷ [])), plain)

IsName-EndsPlain : (name : FilePath) → IsName name → EndsPlain name
IsName-EndsPlain [] n = absurd (omega (arith, n.some_byte))
IsName-EndsPlain (ch ∷ []) n = ([], ch, refl, n.no_slash.0)
IsName-EndsPlain (ch ∷ next ∷ name) n =
    EndsPlain-append (ch ∷ []) (next ∷ name)
      (IsName-EndsPlain (next ∷ name) (record { some_byte = omega arith; no_slash = n.no_slash.1 }))

below-EndsPlain :
    (dir : FilePath) (names : List FilePath)
    → EndsPlain dir
    → All IsName names
    → EndsPlain (dir ++ below names)
unfolding below
below-EndsPlain dir [] plain all = subst EndsPlain (sym (append-nil dir)) plain
below-EndsPlain dir (name ∷ names) plain (here, all) =
    EndsPlain-append dir (b'/' ∷ (name ++ below names)) (
      EndsPlain-append (b'/' ∷ []) (name ++ below names)
        (below-EndsPlain name names (IsName-EndsPlain name here) all))

-- The last byte stays if it is not a slash, and goes if it is one.
drop_slash-last :
    (front : FilePath) (ch : ℕ)
    → drop_slash (front ++ ch ∷ []) ≡ some (if ch == b'/' then front else front ++ ch ∷ [])
unfolding drop_slash
drop_slash-last [] ch = ground arith
drop_slash-last (x ∷ []) ch = rw (drop_slash-last [] ch) (ground arith)
drop_slash-last (x ∷ y ∷ front) ch = rw (drop_slash-last (y ∷ front) ch) (ground arith)

make_all-below :
    (absolute : Bool) (name : FilePath) (names : List FilePath)
    → IsName name
    → All IsName names
    → make_all (first_directory absolute name ++ below names)
      ≡ descend (first_directory absolute name) names
unfolding make_all first_directory
make_all-below false [] names n all = absurd (omega (arith, n.some_byte))
make_all-below false (ch ∷ name) names n all =
    ap (λ calls. calls ++ (ch ∷ (name ++ below names)) ∷ [])
      (make_parents-name (ch ∷ []) name (below names) n.no_slash.1)
    ∙ make_parents-below (ch ∷ name) names all
make_all-below true name names n all =
    ap (λ calls. calls ++ (b'/' ∷ (name ++ below names)) ∷ [])
      (make_parents-name (b'/' ∷ []) name (below names) n.no_slash)
    ∙ make_parents-below (b'/' ∷ name) names all

first_directory-EndsPlain :
    (absolute : Bool) (name : FilePath) → IsName name → EndsPlain (first_directory absolute name)
unfolding first_directory
first_directory-EndsPlain false name n = IsName-EndsPlain name n
first_directory-EndsPlain true name n = EndsPlain-append (b'/' ∷ []) name (IsName-EndsPlain name n)

drop_slash-plain : (p : FilePath) → EndsPlain p → drop_slash p ≡ some p
drop_slash-plain p (front, ch, e, plain) =
    ap drop_slash e ∙ drop_slash-last front ch ∙ rw plain (ap some (sym e))

-- For a path of names with slashes between them, absolute or not and with a slash at its end or not,
-- that fits the array, every directory on the way to it is made, each after the one it lies in, and
-- the directory itself last.
pub make_directories_ancestors :
    (absolute : Bool) (name : FilePath) (names : List FilePath)
    → IsName name
    → All IsName names
    → length (first_directory absolute name ++ below names) + 1 < path_max
    → (make_directories (first_directory absolute name ++ below names)
        ≡ some (descend (first_directory absolute name) names))
      × (make_directories ((first_directory absolute name ++ below names) ++ b'/' ∷ [])
          ≡ some (descend (first_directory absolute name) names))
unfolding make_directories
make_directories_ancestors absolute name names n all fits =
    let path : FilePath = first_directory absolute name ++ below names in
    let made = make_all-below absolute name names n all in
    let plain =
      below-EndsPlain (first_directory absolute name) names
        (first_directory-EndsPlain absolute name n) all in
    let with_slash = length-append path (b'/' ∷ []) in
    (
      rw (take_all 4095 path (omega arith), drop_slash-plain path plain, made) refl,
      rw
          (
            take_all 4095 (path ++ b'/' ∷ []) (omega (arith, with_slash)),
            drop_slash-last path b'/',
            made,
          )
          refl,
    )
