-- ===== src/SelectiveRepeatCc/Congestion/Reach.antt =====
-- selectiveRepeatCCServer.cpp: what holds of the window in every run.
use reliable_data_transfer.Base.{
  ℕ, ◌+◌, ◌-◌, ◌*◌, ◌/◌, ◌≤◌, ◌<◌, ◌^◌, ◌%◌, Bool, true, false, List, [], ◌∷◌, ◌≡◌, refl, arith,
  ◌==◌, leb, if◌then◌else◌, if-both, u32, length, length-append, ◌&&◌, ltb, get_or,
}
use reliable_data_transfer.SelectiveRepeatCc.Congestion.{
  Congestion, write_round, end_round, new_congestion, back, grow, window_decrease, lose_one,
  acknowledge_one,
}

-- A run of so many steps: an acknowledgement of a packet that is out, or a timeout.
pub data Reaches (org_window : ℕ) (dup_acks : List ℕ) : ℕ → Congestion → Type 0 where
  start : Reaches org_window dup_acks 0 (new_congestion org_window dup_acks)
  acked :
      (n : ℕ) (c : Congestion)
      → Reaches org_window dup_acks n c
      → Reaches org_window dup_acks (n + 1) (acknowledge_one c)
  late :
      (n : ℕ) (c : Congestion)
      → Reaches org_window dup_acks n c
      → Reaches org_window dup_acks (n + 1) (window_decrease true c)

-- A run of so many acknowledgements and no timeout.
pub data IsAcked (org_window : ℕ) (dup_acks : List ℕ) : ℕ → Congestion → Type 0 where
  none_yet : IsAcked org_window dup_acks 0 (new_congestion org_window dup_acks)
  one_more :
      (n : ℕ) (c : Congestion)
      → IsAcked org_window dup_acks n c
      → IsAcked org_window dup_acks (n + 1) (acknowledge_one c)

pub IsAcked-Reaches :
    (org_window : ℕ) (dup_acks : List ℕ) (n : ℕ) (c : Congestion)
    → IsAcked org_window dup_acks n c
    → Reaches org_window dup_acks n c
IsAcked-Reaches org_window dup_acks _ _ none_yet = start
IsAcked-Reaches org_window dup_acks _ _ (one_more n c steps) =
    acked n c (IsAcked-Reaches org_window dup_acks n c steps)

-- The window is open and has grown by one at most with each step; the count within a window is
-- below the window; the threshold is not zero, and the three vectors have the same length.
pub record IsSane (most : ℕ) (c : Congestion) : Type 0 where
  pub open_window : 1 ≤ c.window
  pub bounded : c.window ≤ most
  pub mini : c.mini_win < c.window
  pub threshold : 1 ≤ c.ssthres
  pub windows : length c.rounds_window ≡ length c.rounds
  pub thresholds : length c.rounds_ssthres ≡ length c.rounds

write_round-IsSane :
    (most round : ℕ) (c : Congestion) → IsSane most c → IsSane most (write_round round c)
unfolding write_round
write_round-IsSane most round c p = record {
  open_window = p.open_window;
  bounded = p.bounded;
  mini = p.mini;
  threshold = p.threshold;
  windows = omega (
    arith,
    p.windows,
    length-append c.rounds_window (c.window ∷ []),
    length-append c.rounds (round ∷ []),
  );
  thresholds = omega (
    arith,
    p.thresholds,
    length-append c.rounds_ssthres (c.ssthres ∷ []),
    length-append c.rounds (round ∷ []),
  );
}

end_round-IsSane : (most : ℕ) (c : Congestion) → IsSane most c → IsSane most (end_round c)
unfolding end_round
end_round-IsSane most c p =
    let q = write_round-IsSane most c.trans_round c p in
    record {
      open_window = q.open_window;
      bounded = q.bounded;
      mini = q.mini;
      threshold = q.threshold;
      windows = q.windows;
      thresholds = q.thresholds;
    }

counted-IsSane :
    (most success index : ℕ) (c : Congestion)
    → IsSane most c
    → IsSane most (record c { success_acks = success; dup_ack_index = index })
counted-IsSane most success index c p = record {
  open_window = p.open_window;
  bounded = p.bounded;
  mini = p.mini;
  threshold = p.threshold;
  windows = p.windows;
  thresholds = p.thresholds;
}

-- Other values for the window, the threshold and the count.
with_window-IsSane :
    (most most' window ssthres mini_win : ℕ) (c : Congestion)
    → IsSane most c
    → mini_win < window
    → window ≤ most'
    → 1 ≤ ssthres
    → IsSane most' (record c { window = window; ssthres = ssthres; mini_win = mini_win })
with_window-IsSane most most' window ssthres mini_win c p lt le th = record {
  open_window = omega arith;
  bounded = le;
  mini = lt;
  threshold = th;
  windows = p.windows;
  thresholds = p.thresholds;
}

grow-IsSane :
    (most : ℕ) (c : Congestion) → most + 1 < 2 ^ 32 → IsSane most c → IsSane (most + 1) (grow c)
unfolding grow
grow-IsSane most c small p =
    let no_wrap : (c.window + 1) % 2 ^ 32 ≡ c.window + 1 = omega (arith, p.bounded) in
    let counted : (c.mini_win + 1) % 2 ^ 32 ≡ c.mini_win + 1 = omega (arith, p.mini, p.bounded) in
    if-both (IsSane (most + 1)) (leb c.ssthres c.window) _ _
      (λ over.
        if-both (IsSane (most + 1)) (u32 (c.mini_win + 1) == c.window) _ _
          (λ turn. end_round-IsSane (most + 1) _ (
            with_window-IsSane most (most + 1) _ c.ssthres 0 c p (omega (arith, no_wrap))
              (omega (arith, no_wrap, p.bounded)) p.threshold))
          (λ more.
            with_window-IsSane most (most + 1) c.window c.ssthres _ c p (ground (arith, p.mini))
              (omega (arith, p.bounded)) p.threshold))
      (λ slow.
        let grown =
          with_window-IsSane most (most + 1) (u32 (c.window + 1)) c.ssthres c.mini_win c p
            (omega (arith, no_wrap, p.mini)) (omega (arith, no_wrap, p.bounded)) p.threshold in
        if-both (IsSane (most + 1)) (u32 (c.window + 1) == u32 (2 * back c.rounds_window)) _ _
          (λ e. end_round-IsSane (most + 1) _ grown) (λ e. grown))

pub window_decrease-IsSane :
    (most : ℕ) (timeout : Bool) (c : Congestion)
    → IsSane most c
    → IsSane most (window_decrease timeout c)
unfolding window_decrease write_round
window_decrease-IsSane most timeout c p =
    let w = write_round-IsSane most (c.trans_round - 1) c p in
    let half : ℕ = if (c.window / 2) == 0 then 1 else c.window / 2 in
    let in_range : (1 ≤ half) × (half ≤ c.window) =
      if-both (λ n. (1 ≤ n) × (n ≤ c.window)) ((c.window / 2) == 0) 1 (c.window / 2)
        (λ e. (omega arith, p.open_window)) (λ e. ground arith) in
    let window_range : (0 < (if timeout then 1 else half))
        × ((if timeout then 1 else half) ≤ most) =
      if-both (λ n. (0 < n) × (n ≤ most)) timeout 1 half
        (λ e. omega (arith, p.open_window, p.bounded)) (λ e. omega (arith, p.bounded)) in
    end_round-IsSane most _ (
      with_window-IsSane most most (if timeout then 1 else half) half 0
        (write_round (c.trans_round - 1) c) w window_range.0 window_range.1 in_range.0)

lose_one-IsSane : (most : ℕ) (c : Congestion) → IsSane most c → IsSane most (lose_one c)
unfolding lose_one
lose_one-IsSane most c p =
    if-both (IsSane most)
      (ltb c.dup_ack_index (length c.dup_acks)
        && (c.success_acks == get_or c.dup_acks c.dup_ack_index 0))
      _ _
      (λ e.
        window_decrease-IsSane most false _ (counted-IsSane most 0 (u32 (c.dup_ack_index + 1)) c p))
      (λ e. p)

pub new_congestion-IsSane :
    (org_window : ℕ) (dup_acks : List ℕ)
    → 1 ≤ org_window
    → IsSane 1 (new_congestion org_window dup_acks)
unfolding new_congestion end_round write_round
new_congestion-IsSane org_window dup_acks some_window = record {
  open_window = omega arith;
  bounded = omega arith;
  mini = omega arith;
  threshold = some_window;
  windows = refl;
  thresholds = refl;
}

pub acknowledge_one-IsSane :
    (most : ℕ) (c : Congestion)
    → most + 1 < 2 ^ 32
    → IsSane most c
    → IsSane (most + 1) (acknowledge_one c)
unfolding acknowledge_one
acknowledge_one-IsSane most c small p =
    lose_one-IsSane (most + 1) _ (
      grow-IsSane most _ small (counted-IsSane most (u32 (c.success_acks + 1)) c.dup_ack_index c p))

-- In every run from an open window, as long as no counter can have wrapped, the window is open and
-- at most one more than the number of steps, the count within it is below it, the threshold is not
-- zero, and the three vectors that are written to `trans_rounds.cc` have the same length.
pub reached-IsSane :
    (org_window : ℕ) (dup_acks : List ℕ)
    → 1 ≤ org_window
    → (n : ℕ) (c : Congestion) → Reaches org_window dup_acks n c
    → n + 1 < 2 ^ 32
    → IsSane (n + 1) c
reached-IsSane org_window dup_acks some_window _ _ start small =
    new_congestion-IsSane org_window dup_acks some_window
reached-IsSane org_window dup_acks some_window _ _ (acked n c r) small =
    acknowledge_one-IsSane (n + 1) c small
      (reached-IsSane org_window dup_acks some_window n c r (omega arith))
reached-IsSane org_window dup_acks some_window _ _ (late n c r) small =
    let p = reached-IsSane org_window dup_acks some_window n c r (omega arith) in
    let q = window_decrease-IsSane (n + 1) true c p in
    record {
      open_window = q.open_window;
      bounded = omega (arith, q.bounded);
      mini = q.mini;
      threshold = q.threshold;
      windows = q.windows;
      thresholds = q.thresholds;
    }
