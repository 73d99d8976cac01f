-- ===== src/SelectiveRepeatCc/Congestion/Trace.antt =====
-- selectiveRepeatCCServer.cpp: `write_congestion_rounds`.
use reliable_data_transfer.Base.{
  ℕ, ◌+◌, ◌<◌, ◌≤◌, ◌^◌, List, [], ◌∷◌, some, ◌≡◌, refl, arith, length, map,
}
use reliable_data_transfer.SelectiveRepeatCc.Congestion.{Congestion, rows, write_congestion_rounds}
use reliable_data_transfer.SelectiveRepeatCc.Congestion.Reach.{Reaches, reached-IsSane}

-- The three columns of the lines are the three vectors.
pub record IsTrace (c : Congestion) (trace : List (ℕ × ℕ × ℕ)) : Type 0 where
  pub times : map (λ (r, w, t). r) trace ≡ c.rounds
  pub windows : map (λ (r, w, t). w) trace ≡ c.rounds_window
  pub thresholds : map (λ (r, w, t). t) trace ≡ c.rounds_ssthres

rows_total :
    (ssthres window rounds : List ℕ)
    → length window ≡ length ssthres
    → length rounds ≡ length ssthres
    → (trace : List (ℕ × ℕ × ℕ)) × (rows ssthres window rounds ≡ some trace)
      × (map (λ (r, w, t). r) trace ≡ rounds)
      × (map (λ (r, w, t). w) trace ≡ window)
      × (map (λ (r, w, t). t) trace ≡ ssthres)
unfolding rows
rows_total [] [] [] e e' = ([], refl, refl, refl, refl)
rows_total [] (w ∷ window) rounds e e' = absurd (omega arith)
rows_total [] [] (r ∷ rounds) e e' = absurd (omega arith)
rows_total (t ∷ ssthres) [] rounds e e' = absurd (omega arith)
rows_total (t ∷ ssthres) (w ∷ window) [] e e' = absurd (omega arith)
rows_total (t ∷ ssthres) (w ∷ window) (r ∷ rounds) e e' =
    let (trace, found, times, windows, thresholds) =
      rows_total ssthres window rounds (omega arith) (omega arith) in
    ((r, w, t) ∷ trace, rw found refl, cc, cc, cc)

-- In every run from an open window, as long as no counter can have wrapped, writing the rounds reads
-- within the three vectors, and writes each of them whole as a column.
pub write_congestion_rounds_total :
    (org_window : ℕ) (dup_acks : List ℕ)
    → 1 ≤ org_window
    → (n : ℕ) (c : Congestion) → Reaches org_window dup_acks n c
    → n + 1 < 2 ^ 32
    → (trace : List (ℕ × ℕ × ℕ)) × (write_congestion_rounds c ≡ some trace) × IsTrace c trace
unfolding write_congestion_rounds
write_congestion_rounds_total org_window dup_acks some_window n c r small =
    let sane = reached-IsSane org_window dup_acks some_window n c r small in
    let (trace, found, times, windows, thresholds) =
      rows_total c.rounds_ssthres c.rounds_window c.rounds
        (omega (arith, sane.windows, sane.thresholds)) (omega (arith, sane.thresholds)) in
    (trace, found, record { times = times; windows = windows; thresholds = thresholds })
