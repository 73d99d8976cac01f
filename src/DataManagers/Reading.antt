-- ===== src/DataManagers/Reading.antt =====
-- DataFeeder.cpp: how far a transfer has read its file.
use reliable_data_transfer.Base.{
  ℕ, ◌+◌, ◌*◌, ◌≤◌, ◌<◌, true, false, List, ◌⊎◌, inl, inr, ◌≡◌, arith, length,
}
use native.Mathlib.Decide.{dec_lt}
use reliable_data_transfer.DataManagers.{DataFeeder, has_next, get_next_data_segment}
use reliable_data_transfer.DataManagers.Feeding.{
  Feeds, segment, get_next_data_segment-Feeds, get_next_data_segment_last, has_next-Feeds,
}

-- The segments below `i` are read; the feeder is at the next one, or it has handed out the last.
pub record Reads (file : List ℕ) (i : ℕ) (feeder : DataFeeder) : Type 0 where
  pub most : 512 * i < length file + 1024
  pub at :
      ((512 * i < length file + 512) × Feeds file i feeder)
      ⊎ ((length file + 512 ≤ 512 * i) × (has_next feeder ≡ false))

pub Feeds-Reads : (file : List ℕ) (feeder : DataFeeder) → Feeds file 0 feeder → Reads file 0 feeder
Feeds-Reads file feeder f = record { most = omega arith; at = inl (omega arith, f) }

pub Reads-over :
    (file : List ℕ) (i : ℕ) (feeder : DataFeeder)
    → Reads file i feeder
    → has_next feeder ≡ false
    → length file + 512 ≤ 512 * i
Reads-over file i feeder r stop = elim r.at [
  | inl (more, f) ↦ let go = has_next-Feeds file i feeder f in absurd cc
  | inr (over, e) ↦ over
]

-- What the next segment is, and where it leaves the feeder.
pub Reads-next :
    (file : List ℕ) (i : ℕ) (feeder : DataFeeder)
    → Reads file i feeder
    → has_next feeder ≡ true
    → (512 * i < length file + 512)
      × ((get_next_data_segment feeder).1 ≡ segment file i)
      × Reads file (i + 1) (get_next_data_segment feeder).0
Reads-next file i feeder r go = elim r.at [
  | inr (over, e) ↦ absurd cc
  | inl (more, f) ↦ elim (dec_lt (512 * i) (length file)) [
    | yes data_left ↦
        let (e, f') = get_next_data_segment-Feeds file i feeder f data_left in
        (more, e, record { most = omega arith; at = inl (omega arith, f') })
    | no none_left ↦
        let (e, stop) = get_next_data_segment_last file i feeder f (omega arith) in
        (more, e, record { most = omega arith; at = inr (omega arith, stop) })
  ]
]
