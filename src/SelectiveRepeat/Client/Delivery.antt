-- ===== src/SelectiveRepeat/Client/Delivery.antt =====
-- SelectiveRepeatClient.cpp: what reaches the file.
use reliable_data_transfer.Base.{
  ℕ, ◌+◌, ◌-◌, ◌*◌, ◌≤◌, ◌<◌, ◌^◌, true, false, List, [], some, ◌⊎◌, inl, inr, ap, subst, ◌≡◌,
  arith, length, take, take_all, Bool-cases, All, if◌then◌else◌,
}
use reliable_data_transfer.DataManagers.{DataSink}
use reliable_data_transfer.DataManagers.Sinking.{Holds}
use reliable_data_transfer.Socket.{Recv}
use reliable_data_transfer.Socket.Genuine.{Fits, IsDatagram, Arrives}
use reliable_data_transfer.Reception.{Serves, receive_while_inv, receive_while-Serves}
use reliable_data_transfer.SelectiveRepeat.Client.{
  SelectiveRepeatClient, new_client, receive_one, running, recv_message,
}
use reliable_data_transfer.SelectiveRepeat.Client.Accepting.{Delivers}
use reliable_data_transfer.SelectiveRepeat.Client.Receiving.{
  in_turn, receive_one-Delivers, new_client-Delivers,
}

-- How far the worker is: its base, and one more once it is done.
abbrev pub reached : SelectiveRepeatClient → ℕ
reached c = if running c then c.base_ack_no else c.base_ack_no + 1

reached_le :
    (s t : SelectiveRepeatClient)
    → running s ≡ true
    → s.base_ack_no ≤ t.base_ack_no
    → reached s ≤ reached t
reached_le s t runs le = ground arith

reached_lt :
    (s t : SelectiveRepeatClient)
    → running s ≡ true
    → s.base_ack_no ≤ t.base_ack_no
    → (s.base_ack_no + 1 ≤ t.base_ack_no) ⊎ (running t ≡ false)
    → reached s + 1 ≤ reached t
reached_lt s t runs le goes = ground arith

reached-running : (s : SelectiveRepeatClient) → running s ≡ true → reached s ≡ s.base_ack_no
reached-running s runs = ground arith

module _ (file : List ℕ) (fits : Fits file) (window : ℕ) where
  -- Once the loop ends by its own test, the file is whole.
  Delivers-whole :
      (c : SelectiveRepeatClient) → Delivers file c → running c ≡ false → Holds file c.sink
  unfolding running
  Delivers-whole c d stopped =
      let done : (c.end ≡ true) × (c.base_ack_no ≡ c.last_ack_no) = ground arith in
      subst (λ bytes. Holds bytes c.sink)
        (take_all (512 * c.base_ack_no) file
          (omega (arith, d.over done.0, ap (λ n. 512 * n) done.1)))
        d.collects.holds

  -- Whatever the network delivers, loses, repeats, reorders or damages visibly, the client has no
  -- fault, its file holds the first `512 * base_ack_no` bytes of the sent file, and all of it once
  -- the loop has ended, for every window.
  pub selective_repeat_delivers :
      (sink : DataSink) (rs : List Recv)
      → Holds [] sink
      → All (Arrives file) rs
      → (c : SelectiveRepeatClient) × (recv_message window (new_client sink) rs ≡ some c)
        × Holds (take (512 * c.base_ack_no) file) c.sink
        × (running c ≡ false → Holds file c.sink)
  unfolding recv_message
  selective_repeat_delivers sink rs h a =
      let (c, e, d) =
        receive_while_inv running (receive_one window) file (Delivers file)
          (λ s r runs p ar.
            let (s', e', d', _) = receive_one-Delivers file fits window s r p ar in (s', e', d'))
          (new_client sink) rs (new_client-Delivers file fits window sink h) a in
      (c, e, d.collects.holds, Delivers-whole c d)

  -- If moreover each packet of the transfer arrives after its predecessors have, and the window
  -- is neither empty nor so large that its end wraps, the loop ends with the whole file.
  pub selective_repeat_completes :
      (sink : DataSink) (rs : List Recv)
      → 0 < window
      → length file + 512 * window < 512 * (2 ^ 32 - 2)
      → Holds [] sink
      → All (Arrives file) rs
      → Serves file 0 rs
      → (c : SelectiveRepeatClient) × (recv_message window (new_client sink) rs ≡ some c)
        × (running c ≡ false)
        × Holds file c.sink
  unfolding recv_message
  selective_repeat_completes sink rs some_window roomy h a s =
      let (c, e, d, stopped) =
        receive_while-Serves running (receive_one window) file (Delivers file) reached keep advance
          over 0 (new_client sink) rs (new_client-Delivers file fits window sink h) (omega arith) a
          s in
      (c, e, stopped, Delivers-whole c d stopped)
    where
      keep :
          (s : SelectiveRepeatClient) (r : Recv)
          → running s ≡ true
          → Delivers file s
          → Arrives file r
          → (s' : SelectiveRepeatClient) × (receive_one window s r ≡ some s')
            × Delivers file s'
            × (reached s ≤ reached s')
      keep s r runs d ar =
          let (s', e, d', le) = receive_one-Delivers file fits window s r d ar in
          (s', e, d', reached_le s s' runs le)

      advance :
          (s : SelectiveRepeatClient) (r : Recv)
          → running s ≡ true
          → Delivers file s
          → IsDatagram file (reached s) r
          → (s' : SelectiveRepeatClient) × (receive_one window s r ≡ some s')
            × (reached s + 1 ≤ reached s')
      advance s r runs d p =
          let (s', e, le, goes) =
            in_turn file fits window s r some_window (omega (arith, d.collects.range)) d
              (subst (λ n. IsDatagram file n r) (reached-running s runs) p) in
          (s', e, reached_lt s s' runs le goes)

      over :
          (s : SelectiveRepeatClient)
          → Delivers file s
          → length file + 512 ≤ 512 * reached s
          → running s ≡ false
      over s d le = elim (Bool-cases (running s)) [
        | inl runs ↦
            absurd (omega (arith, ap (λ n. 512 * n) (reached-running s runs), d.collects.range))
        | inr stopped ↦ stopped
      ]
