-- ===== src/Base/Maps.antt =====
-- `std::map` and `std::set` over numbers, as association lists: what a program sees of them is
-- `lookup` and the number of entries.
use Prim.Native.Nat.{ℕ, ◌≤◌, ◌<◌}
use mathlib.Core.Path.{◌≡◌, refl}
use mathlib.Core.Bool.{Bool, true, false}
use mathlib.Core.Option.{Option, none, some}
use mathlib.Core.List.{List, [], ◌∷◌}
use native.Mathlib.Omega.{arith}
use reliable_data_transfer.Base.Tests.{◌==◌, if◌then◌else◌}
use reliable_data_transfer.Base.Lists.{length}

module _ {V : Type 0} where
  -- `find(k)->second`, or the end.
  unfoldable pub lookup : ℕ → List (ℕ × V) → Option V
  lookup k [] = none
  lookup k ((j, v) ∷ m) = if j == k then some v else lookup k m

  -- `count(k)`, and `find(k) != end()`.
  abbrev pub has : Option V → Bool
  has none = false
  has (some v) = true

  -- `insert`, which keeps an old entry.
  unfoldable pub insert : ℕ → V → List (ℕ × V) → List (ℕ × V)
  insert k v m = if has (lookup k m) then m else (k, v) ∷ m

  -- `m[k] = v`.
  unfoldable pub assign : ℕ → V → List (ℕ × V) → List (ℕ × V)
  assign k v [] = (k, v) ∷ []
  assign k v ((j, w) ∷ m) = if j == k then (j, v) ∷ m else (j, w) ∷ assign k v m

  -- `erase(find(k))`.
  unfoldable pub erase : ℕ → List (ℕ × V) → List (ℕ × V)
  erase k [] = []
  erase k ((j, v) ∷ m) = if j == k then erase k m else (j, v) ∷ erase k m

  pub lookup-insert :
      (k j : ℕ) (v : V) (m : List (ℕ × V))
      → lookup k m ≡ none
      → lookup j (insert k v m) ≡ (if k == j then some v else lookup j m)
  unfolding lookup insert
  lookup-insert k j v m e = ground arith

  pub lookup-erase :
      (k j : ℕ) (m : List (ℕ × V)) → lookup j (erase k m) ≡ (if k == j then none else lookup j m)
  unfolding lookup erase
  lookup-erase k j [] = ground arith
  lookup-erase k j ((i, v) ∷ m) = ground (arith, lookup-erase k j m)

  pub lookup-assign :
      (k j : ℕ) (v : V) (m : List (ℕ × V))
      → lookup j (assign k v m) ≡ (if k == j then some v else lookup j m)
  unfolding lookup assign
  lookup-assign k j v [] = refl
  lookup-assign k j v ((i, w) ∷ m) = ground (arith, lookup-assign k j v m)

  length-erase-le : (k : ℕ) (m : List (ℕ × V)) → length (erase k m) ≤ length m
  unfolding erase
  length-erase-le k [] = omega arith
  length-erase-le k ((i, v) ∷ m) = ground (arith, length-erase-le k m)

  pub length-erase-lt :
      (k : ℕ) (v : V) (m : List (ℕ × V)) → lookup k m ≡ some v → length (erase k m) < length m
  unfolding lookup erase
  length-erase-lt k v [] e = cc
  length-erase-lt k v ((i, w) ∷ m) e = ground (arith, length-erase-le k m, length-erase-lt k v m)

  pub lookup_empty : (k : ℕ) (m : List (ℕ × V)) → length m ≤ 0 → lookup k m ≡ none
  unfolding lookup
  lookup_empty k [] h = refl
  lookup_empty k (e ∷ m) h = absurd (omega arith)

  pub has-lookup-insert :
      (k j : ℕ) (v : V) (m : List (ℕ × V))
      → has (lookup j (insert k v m)) ≡ (if k == j then true else has (lookup j m))
  unfolding insert lookup
  has-lookup-insert k j v m = ground arith

  pub has-lookup-assign :
      (k j : ℕ) (v : V) (m : List (ℕ × V))
      → has (lookup j (assign k v m)) ≡ (if k == j then true else has (lookup j m))
  has-lookup-assign k j v m = ground (arith, lookup-assign k j v m)

  pub has-lookup-erase :
      (k j : ℕ) (m : List (ℕ × V))
      → has (lookup j (erase k m)) ≡ (if k == j then false else has (lookup j m))
  has-lookup-erase k j m = ground (arith, lookup-erase k j m)

  pub insert_present : (k : ℕ) (v w : V) (m : List (ℕ × V)) → lookup k m ≡ some v → insert k w m ≡ m
  unfolding insert
  insert_present k v w m e = rw e refl

  pub lookup-nil : (k : ℕ) (m : List (ℕ × V)) → m ≡ [] → lookup k m ≡ none
  unfolding lookup
  lookup-nil k m e = rw e refl
