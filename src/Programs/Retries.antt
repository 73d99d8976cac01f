-- ===== src/Programs/Retries.antt =====
-- The loops `while (call fails && ntry < RETRIES) ntry++` of client.cpp and server.cpp.
use reliable_data_transfer.Base.{
  ℕ, zero, suc, ◌+◌, ◌≤◌, Bool, true, false, inl, inr, arith, Bool-cases,
}

-- RETRIES.
abbrev pub max_retries : ℕ
max_retries = 3

module _ {W : Type 0} where
  -- With so many retries left: whether the last call has succeeded.
  unfoldable pub attempt : ℕ → (W → Bool × W) → W → Bool × W
  attempt zero call w = call w
  attempt (suc left) call w =
      let (ok, w) = call w in elim ok [ true ↦ (true, w) | false ↦ attempt left call w ]

  -- Each call costs one at most: so the loop costs one more than the retries at most.
  pub attempt_cost :
      (cost : W → ℕ) (call : W → Bool × W)
      → ((w : W) → cost (call w).1 ≤ cost w + 1)
      → (left : ℕ) (w : W) → cost (attempt left call w).1 ≤ cost w + left + 1
  unfolding attempt
  attempt_cost cost call one zero w = omega (arith, one w)
  attempt_cost cost call one (suc left) w = elim (Bool-cases (call w).0) [
    | inl ok ↦ rw (ok, attempt) (omega (arith, one w))
    | inr failed ↦
        rw (failed, attempt) (omega (arith, one w, attempt_cost cost call one left (call w).1))
  ]
