-- ===== src/SelectiveRepeatCc/Congestion/Tests.antt =====
-- The window of a small run.
use reliable_data_transfer.Base.{ℕ, List, some, ◌+◌, [], ◌∷◌, ◌≡◌, refl, arith, true, get_or}
use reliable_data_transfer.SelectiveRepeatCc.Congestion.{
  Congestion, write_round, end_round, new_congestion, back, grow, window_decrease, lose_one,
  acknowledge_one, write_congestion_rounds,
}
use reliable_data_transfer.SelectiveRepeatCc.Congestion.Trace.{
  IsTrace, write_congestion_rounds_total,
}
use reliable_data_transfer.SelectiveRepeatCc.Congestion.Growth.{
  grow_times, slow_start, congestion_avoidance,
}
use reliable_data_transfer.SelectiveRepeatCc.Congestion.Reach.{
  start, acked, late, IsSane, reached-IsSane,
}

-- A window of two is a doubling of the first one, and so it ends a round.
first_round : (acknowledge_one (new_congestion 8 [])).rounds_window ≡ 1 ∷ 2 ∷ []
unfolding acknowledge_one lose_one new_congestion end_round write_round grow back get_or
first_round = refl

-- The first acknowledgement is taken for a loss, which halves the window.
one_loss : (acknowledge_one (new_congestion 8 (1 ∷ []))).window ≡ 1
unfolding acknowledge_one lose_one new_congestion end_round write_round grow back window_decrease
    get_or
one_loss = refl

-- At the threshold.
abbrev at_threshold : Congestion
at_threshold = record {
  window = 4;
  ssthres = 4;
  mini_win = 0;
  trans_round = 6;
  rounds_window = 1 ∷ 2 ∷ 4 ∷ [];
  rounds_ssthres = 4 ∷ 4 ∷ 4 ∷ [];
  rounds = 2 ∷ 4 ∷ 6 ∷ [];
  success_acks = 3;
  dup_acks = [];
  dup_ack_index = 0;
}

abbrev below_threshold : Congestion
below_threshold = record at_threshold { window = 1 }

slow_start_example :
    ((grow_times 3 below_threshold).window ≡ 1 + 3) × ((grow_times 3 below_threshold).ssthres ≡ 4)
slow_start_example = slow_start 3 below_threshold (omega arith) (omega arith)

congestion_avoidance_example :
    ((grow_times 4 at_threshold).window ≡ 4 + 1)
    × ((grow_times 4 at_threshold).ssthres ≡ 4)
    × ((grow_times 4 at_threshold).mini_win ≡ 0)
congestion_avoidance_example =
    congestion_avoidance 4 at_threshold (omega arith) (omega arith) (omega arith) (omega arith)

reached-IsSane_example :
    IsSane 3 (window_decrease true (acknowledge_one (new_congestion 8 (1 ∷ []))))
reached-IsSane_example =
    reached-IsSane 8 (1 ∷ []) (omega arith) 2
      (window_decrease true (acknowledge_one (new_congestion 8 (1 ∷ []))))
      (late 1 (acknowledge_one (new_congestion 8 (1 ∷ [])))
        (acked 0 (new_congestion 8 (1 ∷ [])) start))
      (omega arith)

write_congestion_rounds_total_example :
    (trace : List (ℕ × ℕ × ℕ)) × (write_congestion_rounds (acknowledge_one (new_congestion 8 []))
      ≡ some trace)
    × IsTrace (acknowledge_one (new_congestion 8 [])) trace
write_congestion_rounds_total_example =
    write_congestion_rounds_total 8 [] (omega arith) 1 (acknowledge_one (new_congestion 8 []))
      (acked 0 (new_congestion 8 []) start) (omega arith)
