-- ===== src/SelectiveRepeatCc/Client/Room.antt =====
-- SelectiveRepeatCCClient.cpp: the packets that wait have distinct numbers inside the window, so
-- that there is room for one more.
use reliable_data_transfer.Base.{
  ℕ, zero, suc, ◌+◌, ◌-◌, ◌≤◌, ◌<◌, ◌^◌, List, [], ◌∷◌, none, some, ◌≡◌, refl, arith, length,
}
use reliable_data_transfer.Base.Maps.{lookup, insert, erase, lookup-insert, lookup-erase}

module _ {V : Type 0} where
  -- No number has two entries.
  abbrev pub Distinct : List (ℕ × V) → Type 0
  Distinct [] = Unit
  Distinct ((k, v) ∷ m) = (lookup k m ≡ none) × Distinct m

  -- Each entry's number is from `base` on and below `base + window`, and has a successor.
  abbrev pub Within : ℕ → ℕ → List (ℕ × V) → Type 0
  Within base window m =
      (k : ℕ) (v : V) → lookup k m ≡ some v → (base ≤ k) × (k < base + window) × (k + 1 < 2 ^ 32)

  erase_absent : (k : ℕ) (m : List (ℕ × V)) → lookup k m ≡ none → erase k m ≡ m
  unfolding lookup erase
  erase_absent k [] e = refl
  erase_absent k ((j, v) ∷ m) e = ground (arith, erase_absent k m)

  length-erase-Distinct :
      (k : ℕ) (m : List (ℕ × V)) → Distinct m → length m ≤ length (erase k m) + 1
  unfolding erase
  length-erase-Distinct k [] d = omega arith
  length-erase-Distinct k ((j, v) ∷ m) (free, d) =
      ground (arith, erase_absent k m, length-erase-Distinct k m d)

  pub Distinct-erase : (k : ℕ) (m : List (ℕ × V)) → Distinct m → Distinct (erase k m)
  unfolding erase
  Distinct-erase k [] d = tt
  Distinct-erase k ((j, v) ∷ m) (free, d) = ground (arith, lookup-erase k j m, Distinct-erase k m d)

  pub Distinct-insert :
      (k : ℕ) (v : V) (m : List (ℕ × V)) → lookup k m ≡ none → Distinct m → Distinct (insert k v m)
  unfolding insert
  Distinct-insert k v m free d = rw free (free, d)

  -- Without the last number of the range, or without the first.
  Within-erase_last :
      (n base : ℕ) (m : List (ℕ × V)) → Within base (suc n) m → Within base n (erase (base + n) m)
  Within-erase_last n base m w k v e = ground (arith, lookup-erase (base + n) k m, w k v)

  Within-next :
      (base window : ℕ) (m : List (ℕ × V))
      → lookup base m ≡ none
      → Within base window m
      → Within (base + 1) (window - 1) m
  Within-next base window m free w k v e = ground (arith, w k v)

  pub Within-erase :
      (base window : ℕ) (m : List (ℕ × V))
      → Within base window m
      → Within (base + 1) window (erase base m)
  Within-erase base window m w k v e = ground (arith, lookup-erase base k m, w k v)

  pub Within-insert :
      (base window k : ℕ) (v : V) (m : List (ℕ × V))
      → lookup k m ≡ none
      → base ≤ k
      → k < base + window
      → k + 1 < 2 ^ 32
      → Within base window m
      → Within base window (insert k v m)
  Within-insert base window k v m free low high last w j u e =
      ground (arith, lookup-insert k j v m free, w j u)

  -- So many numbers, so many entries at most.
  length-Within : (n base : ℕ) (m : List (ℕ × V)) → Distinct m → Within base n m → length m ≤ n
  unfolding lookup
  length-Within zero base [] d w = omega arith
  length-Within zero base ((k, v) ∷ m) d w = absurd (ground (arith, w k v))
  length-Within (suc n) base m d w = omega (
    arith,
    length-erase-Distinct (base + n) m d,
    length-Within n base (erase (base + n) m) (Distinct-erase (base + n) m d)
        (Within-erase_last n base m w),
  )

  -- There is room for one more packet, if the next one to come is not there.
  pub room :
      (base window : ℕ) (m : List (ℕ × V))
      → 0 < window
      → lookup base m ≡ none
      → Distinct m
      → Within base window m
      → length m < window
  room base window m some_window free d w =
      omega (arith, length-Within (window - 1) (base + 1) m d (Within-next base window m free w))
