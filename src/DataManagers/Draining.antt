-- ===== src/DataManagers/Draining.antt =====
-- `while (hasNext()) getNextDataSegment();`, the loop around which every server worker is built.
use reliable_data_transfer.Base.{
  ℕ, zero, suc, ◌+◌, ◌*◌, ◌/◌, ◌≤◌, ◌<◌, false, List, [], ◌∷◌, ◌++◌, some, ◌≡◌, refl, arith, length,
  take, take_all, take_zero, drop_zero, drop-drop, take-append-take-drop, ap, ap₂, ◌∙◌, sym, ◌⊎◌,
  if◌then◌else◌,
}
use reliable_data_transfer.Packet.{PacketCoreData}
use reliable_data_transfer.FileSystem.{FilePath, Disk}
use reliable_data_transfer.DataManagers.{
  DataFeeder, new_feeder, read_file, has_next, get_next_data_segment,
}
use reliable_data_transfer.DataManagers.Feeding.{
  Feeds, segment, from_segment, take-segment, read_file-Feeds, get_next_data_segment-Feeds,
  get_next_data_segment_last, has_next-Feeds, length-from_segment,
}

-- The segments that a feeder hands out until it has no next one, as far as the fuel goes, and
-- the feeder afterwards.
pub drain : ℕ → DataFeeder → DataFeeder × List PacketCoreData
drain zero feeder = (feeder, [])
drain (suc fuel) feeder =
    let (next, core) = get_next_data_segment feeder in
    let (last, cores) = drain fuel next in
    if has_next feeder then (last, core ∷ cores) else (feeder, [])

-- The bytes that segments carry, one after the other.
unfoldable pub contents : List PacketCoreData → List ℕ
contents [] = []
contents (core ∷ cores) = take core.size core.payload ++ contents cores

-- The `n` segments of a file from number `i` on.
pub segments : ℕ → List ℕ → ℕ → List PacketCoreData
segments zero file i = []
segments (suc n) file i = segment file i ∷ segments n file (i + 1)

drain_done :
    (fuel : ℕ) (feeder : DataFeeder) → has_next feeder ≡ false → drain fuel feeder ≡ (feeder, [])
unfolding drain
drain_done zero feeder e = refl
drain_done (suc fuel) feeder e = rw e refl

-- With `n` segments of data left, the feeder hands these out and the empty one.
drain-Feeds :
    (file : List ℕ) (n i fuel : ℕ) (feeder : DataFeeder)
    → Feeds file i feeder
    → length file ≤ 512 * (i + n)
    → (n ≡ 0) ⊎ (512 * (i + n) < length file + 512)
    → n < fuel
    → (has_next (drain fuel feeder).0 ≡ false) × ((drain fuel feeder).1 ≡ segments (suc n) file i)
unfolding drain segments
drain-Feeds file n i zero feeder f over tight h = absurd (omega arith)
drain-Feeds file zero i (suc fuel) feeder f over tight h =
    let (core, stops) = get_next_data_segment_last file i feeder f (omega arith) in
    rw (has_next-Feeds file i feeder f)
      (rw (drain_done fuel (get_next_data_segment feeder).0 stops) (stops, ap (λ c. c ∷ []) core))
drain-Feeds file (suc n) i (suc fuel) feeder f over tight h =
    let more : 512 * i < length file = omega arith in
    let (core, f') = get_next_data_segment-Feeds file i feeder f more in
    let (stops, rest) =
      drain-Feeds file n (i + 1) fuel (get_next_data_segment feeder).0 f' (omega arith)
        (ground arith) (omega arith) in
    rw (has_next-Feeds file i feeder f) (stops, ap₂ ◌∷◌ core rest)

contents-segments :
    (n i : ℕ) (file : List ℕ) → contents (segments n file i) ≡ take (512 * n) (from_segment file i)
unfolding contents segments
contents-segments zero i file = sym (take_zero _)
contents-segments (suc n) i file =
    ap₂ ◌++◌ (take-segment file i) (
      contents-segments n (i + 1) file
      ∙ ap (take (512 * n)) (sym (drop-drop (512 * i) 512 (512 * (i + 1)) file (omega arith))))
    ∙ take-append-take-drop 512 (512 * n) (512 * suc n) (from_segment file i) (omega arith)

-- A feeder that has been given a file which exists hands out, in as many calls as the file has
-- segments of 512 bytes, and one more, segments that carry exactly the bytes of the file, each of
-- 512 bytes but for the last one with data, and at the end an empty one.
pub drain-read_file :
    (disk : Disk) (path : FilePath) (file : List ℕ) (fuel : ℕ)
    → disk path ≡ some file
    → (length file + 511) / 512 < fuel
    → let (last, cores) = drain fuel (read_file disk new_feeder path).0 in
      (has_next last ≡ false)
      × (cores ≡ segments (suc ((length file + 511) / 512)) file 0)
      × (contents cores ≡ file)
drain-read_file disk path file fuel exists h =
    let (stops, all) =
      drain-Feeds file ((length file + 511) / 512) 0 fuel (read_file disk new_feeder path).0
        (read_file-Feeds disk path file exists).1 (omega arith) (ground arith) h in
    (
      stops,
      all,
      ap contents all
          ∙ contents-segments (suc ((length file + 511) / 512)) 0 file
          ∙ take_all _ (from_segment file 0) (omega (arith, length-from_segment file 0))
          ∙ drop_zero file,
    )
