-- ===== src/SelectiveRepeatCc/Congestion.antt =====
-- selectiveRepeatCCServer.cpp: the window, which grows with acknowledgements and shrinks with
-- timeouts and with the losses that the file `control.cc` names.
pub mod Growth
pub mod Reach
pub mod Trace
mod Tests
use reliable_data_transfer.Base.{
  ℕ, zero, suc, ◌+◌, ◌-◌, ◌*◌, ◌/◌, Bool, true, false, ◌&&◌, List, [], ◌∷◌, ◌++◌, ltb, leb, ◌==◌,
  if◌then◌else◌, Option, some, none, ◌>>=◌, u32, length, get_or,
}

-- The locals `window`, `ssthress` and `miniWin` of `send_message` and the fields that belong to
-- them. `trans_round` counts half rounds, since `window_decrease` writes a half.
pub record Congestion : Type 0 where
  pub window : ℕ
  pub ssthres : ℕ
  pub mini_win : ℕ
  pub trans_round : ℕ
  pub rounds_window : List ℕ
  pub rounds_ssthres : List ℕ
  pub rounds : List ℕ
  pub success_acks : ℕ
  pub dup_acks : List ℕ
  pub dup_ack_index : ℕ

-- The three `push_back`s, for the time `round`.
unfoldable pub write_round : ℕ → Congestion → Congestion
write_round round c = record c {
  rounds_window = c.rounds_window ++ c.window ∷ [];
  rounds_ssthres = c.rounds_ssthres ++ c.ssthres ∷ [];
  rounds = c.rounds ++ round ∷ [];
}

-- The same for the current round, and `trans_round++`.
unfoldable pub end_round : Congestion → Congestion
end_round c = let c = write_round c.trans_round c in record c { trans_round = c.trans_round + 2 }

-- The start of `send_message`, with what the constructor has read from `control.cc`.
unfoldable pub new_congestion : ℕ → List ℕ → Congestion
new_congestion org_window dup_acks = end_round (record {
  window = 1;
  ssthres = org_window;
  mini_win = 0;
  trans_round = 2;
  rounds_window = [];
  rounds_ssthres = [];
  rounds = [];
  success_acks = 0;
  dup_acks = dup_acks;
  dup_ack_index = 0;
})

-- `transmission_rounds_window.back()`; the vector is never empty.
unfoldable pub back : List ℕ → ℕ
back xs = get_or xs (length xs - 1) 0

-- What an acknowledgement of a packet that is out does to the window.
unfoldable pub grow : Congestion → Congestion
grow c =
    if leb c.ssthres c.window
    then (let mini_win = u32 (c.mini_win + 1) in
        if mini_win == c.window
        then end_round (record c { window = u32 (c.window + 1); mini_win = 0 })
        else record c { mini_win = mini_win })
    else (let c' = record c { window = u32 (c.window + 1) } in
        if c'.window == u32 (2 * back c.rounds_window) then end_round c' else c')

unfoldable pub window_decrease : Bool → Congestion → Congestion
window_decrease timeout c =
    let c = write_round (c.trans_round - 1) c in
    let half = c.window / 2 in
    let ssthres = if half == 0 then 1 else half in
    end_round
      (record c { ssthres = ssthres; mini_win = 0; window = if timeout then 1 else ssthres })

-- A loss where the count of acknowledgements is the one that `control.cc` names next.
unfoldable pub lose_one : Congestion → Congestion
lose_one c =
    if ltb c.dup_ack_index (length c.dup_acks)
      && (c.success_acks == get_or c.dup_acks c.dup_ack_index 0)
    then window_decrease false
        (record c { success_acks = 0; dup_ack_index = u32 (c.dup_ack_index + 1) })
    else c

-- The parts of `receive_ack` that are about the window, for a packet that is out.
unfoldable pub acknowledge_one : Congestion → Congestion
acknowledge_one c = lose_one (grow (record c { success_acks = u32 (c.success_acks + 1) }))

-- The lines of `trans_rounds.cc` for so many rounds: the time, the window and the threshold. Reading
-- beyond a vector is undefined.
unfoldable pub rows : (ssthres window rounds : List ℕ) → Option (List (ℕ × ℕ × ℕ))
rows [] window rounds = some []
rows (t ∷ ssthres) (w ∷ window) (r ∷ rounds) =
    rows ssthres window rounds >>= λ later. some ((r, w, t) ∷ later)
rows (t ∷ ssthres) window rounds = none

-- `write_congestion_rounds`.
unfoldable pub write_congestion_rounds : Congestion → Option (List (ℕ × ℕ × ℕ))
write_congestion_rounds c = rows c.rounds_ssthres c.rounds_window c.rounds
