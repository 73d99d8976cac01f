-- ===== src/SelectiveRepeatCc/Congestion/Growth.antt =====
-- selectiveRepeatCCServer.cpp: how fast the window grows.
use reliable_data_transfer.Base.{ℕ, zero, suc, ◌+◌, ◌≤◌, ◌<◌, ◌^◌, ◌≡◌, refl, arith}
use reliable_data_transfer.SelectiveRepeatCc.Congestion.{Congestion, write_round, end_round, grow}

-- `n` acknowledgements without a loss.
unfoldable pub grow_times : ℕ → Congestion → Congestion
grow_times zero c = c
grow_times (suc n) c = grow_times n (grow c)

grow_slow :
    (c : Congestion)
    → c.window < c.ssthres
    → c.window + 1 < 2 ^ 32
    → ((grow c).window ≡ c.window + 1) × ((grow c).ssthres ≡ c.ssthres)
unfolding grow end_round write_round
grow_slow c slow small = ground arith

-- Below the threshold, the window grows by one with each acknowledgement.
pub slow_start :
    (n : ℕ) (c : Congestion)
    → c.window + n ≤ c.ssthres
    → c.ssthres < 2 ^ 32
    → ((grow_times n c).window ≡ c.window + n) × ((grow_times n c).ssthres ≡ c.ssthres)
unfolding grow_times
slow_start zero c le small = (omega arith, refl)
slow_start (suc n) c le small =
    let (w, t) = grow_slow c (omega arith) (omega arith) in
    let (w', t') = slow_start n (grow c) (omega arith) (omega arith) in (omega arith, omega arith)

grow_avoid :
    (c : Congestion)
    → c.ssthres ≤ c.window
    → c.mini_win + 1 < c.window
    → c.window < 2 ^ 32
    → ((grow c).window ≡ c.window)
      × ((grow c).ssthres ≡ c.ssthres)
      × ((grow c).mini_win ≡ c.mini_win + 1)
unfolding grow
grow_avoid c over more small = ground arith

grow_turn :
    (c : Congestion)
    → c.ssthres ≤ c.window
    → c.mini_win + 1 ≡ c.window
    → c.window + 1 < 2 ^ 32
    → ((grow c).window ≡ c.window + 1) × ((grow c).ssthres ≡ c.ssthres) × ((grow c).mini_win ≡ 0)
unfolding grow end_round write_round
grow_turn c over last small = ground arith

-- From the threshold on it takes the acknowledgements that a whole window lacks to grow by one.
pub congestion_avoidance :
    (n : ℕ) (c : Congestion)
    → c.ssthres ≤ c.window
    → c.mini_win + n ≡ c.window
    → 0 < n
    → c.window + 1 < 2 ^ 32
    → ((grow_times n c).window ≡ c.window + 1)
      × ((grow_times n c).ssthres ≡ c.ssthres)
      × ((grow_times n c).mini_win ≡ 0)
unfolding grow_times
congestion_avoidance zero c over e some_left small = absurd (omega arith)
congestion_avoidance (suc zero) c over e some_left small = grow_turn c over (omega arith) small
congestion_avoidance (suc (suc n)) c over e some_left small =
    let (w, t, m) = grow_avoid c over (omega arith) (omega arith) in
    let (w', t', m') =
      congestion_avoidance (suc n) (grow c) (omega arith) (omega arith) (omega arith)
        (omega arith) in
    (omega arith, omega arith, m')
