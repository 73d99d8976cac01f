-- ===== src/Workers/Growing.antt =====
-- The client workers against an abstract receiver, which appends the segments of the file one after
-- the other.
use reliable_data_transfer.Base.{
  ℕ, zero, suc, ◌+◌, ◌-◌, ◌*◌, ◌≤◌, ◌<◌, not, List, [], ◌++◌, All, some, ◌≡◌, refl, sym, subst, ◌∙◌,
  arith, length, take, take_all, take-append-take-drop,
}
use native.Mathlib.Decide.{dec_lt}
use reliable_data_transfer.DataManagers.{DataSink}
use reliable_data_transfer.DataManagers.Feeding.{chunk}
use reliable_data_transfer.DataManagers.Sinking.{Holds}
use reliable_data_transfer.Socket.{Recv}
use reliable_data_transfer.Socket.Genuine.{Fits, Arrives}
use reliable_data_transfer.Reception.{receive_while_grows}
use reliable_data_transfer.StopWait.Client as StopWaitSide
use reliable_data_transfer.StopWait.Client.Accepting as StopWaitInv
use reliable_data_transfer.GoBackN.Client as GoBackSide
use reliable_data_transfer.GoBackN.Client.Accepting as GoBackInv
use reliable_data_transfer.SelectiveRepeat.Client as SelectiveSide
use reliable_data_transfer.SelectiveRepeat.Client.Accepting.{Delivers}
use reliable_data_transfer.SelectiveRepeat.Client.Receiving as SelectiveInv
use reliable_data_transfer.SelectiveRepeatCc.Client.Agreement.{congestion_client_agrees}
use reliable_data_transfer.Workers.{
  ClientWorker, stop_wait_client, selective_repeat_client, go_back_client,
  selective_repeat_cc_client, Received, recv_message,
}

-- The steps of the abstract receiver between two contents of its file: it appends the segment that
-- follows what it has, and nothing else.
pub data Appends (file : List ℕ) (before : List ℕ) : List ℕ → Type 0 where
  same : Appends file before before
  segment :
      (n : ℕ)
      → 512 * n < length file
      → Appends file before (take (512 * n) file)
      → Appends file before (take (512 * n) file ++ chunk file n)

-- From so many segments to so many more.
Appends-take :
    (file : List ℕ) (n k : ℕ) → Appends file (take (512 * n) file) (take (512 * (n + k)) file)
Appends-take file n zero =
    let e : n ≡ n + 0 = omega arith in
    subst (λ j. Appends file (take (512 * n) file) (take (512 * j) file)) e same
Appends-take file n (suc k) = elim (dec_lt (512 * (n + k)) (length file)) [
  | yes more ↦
      subst (Appends file (take (512 * n) file))
        (take-append-take-drop (512 * (n + k)) 512 (512 * (n + suc k)) file (omega arith))
        (segment (n + k) more (Appends-take file n k))
  | no over ↦
      subst (Appends file (take (512 * n) file))
        (take_all (512 * (n + k)) file (omega arith)
          ∙ sym (take_all (512 * (n + suc k)) file (omega arith)))
        (Appends-take file n k)
]

Appends-le :
    (file : List ℕ) (n m : ℕ) → n ≤ m → Appends file (take (512 * n) file) (take (512 * m) file)
Appends-le file n m le =
    let e : n + (m - n) ≡ m = omega arith in
    subst (λ j. Appends file (take (512 * n) file) (take (512 * j) file)) e
      (Appends-take file n (m - n))

-- The file of the one reception has been appended to by the other.
pub record Extends (file : List ℕ) (c c' : Received) : Type 0 where
  pub before : List ℕ
  pub after : List ℕ
  pub holds_before : Holds before c.sink
  pub holds_after : Holds after c'.sink
  pub appends : Appends file before after

Extends-segments :
    (file : List ℕ) (c c' : Received) (n m : ℕ)
    → Holds (take (512 * n) file) c.sink
    → Holds (take (512 * m) file) c'.sink
    → n ≤ m
    → Extends file c c'
Extends-segments file c c' n m before after le = record {
  before = take (512 * n) file;
  after = take (512 * m) file;
  holds_before = before;
  holds_after = after;
  appends = Appends-le file n m le;
}

selective_grows :
    (file : List ℕ) (fits : Fits file) (window : ℕ) (sink : DataSink) (rs more : List Recv)
    → Holds [] sink
    → All (Arrives file) rs
    → All (Arrives file) more
    → (c c' : SelectiveSide.SelectiveRepeatClient) × (SelectiveSide.recv_message window
          (SelectiveSide.new_client sink)
          rs
        ≡ some c)
      × (SelectiveSide.recv_message window (SelectiveSide.new_client sink) (rs ++ more) ≡ some c')
      × Delivers file c
      × Delivers file c'
      × (c.base_ack_no ≤ c'.base_ack_no)
unfolding SelectiveSide.recv_message
selective_grows file fits window sink rs more empty a b =
    receive_while_grows SelectiveSide.running (SelectiveSide.receive_one window) file
      (Delivers file) (λ c. c.base_ack_no) (SelectiveInv.receive_one-Delivers file fits window)
      (SelectiveSide.new_client sink) rs more
      (SelectiveInv.new_client-Delivers file fits window sink empty) a b

-- Each of the four client workers refines an abstract receiver that appends the segments of the
-- file one after the other: for a file of less than 512 * (2^32 - 2) bytes and arrivals that are
-- packets of its transfer, failures or packets that the checksum rejects, what the output file
-- holds after more of them comes from what it holds after some of them by appending the segments
-- that follow, in order, each once.
pub client_worker_refines :
    (file : List ℕ)
    → Fits file
    → (worker : ClientWorker) (window : ℕ) (sink : DataSink) (rs more : List Recv) → Holds [] sink
    → All (Arrives file) rs
    → All (Arrives file) more
    → (c c' : Received) × (recv_message worker window sink rs ≡ some c)
      × (recv_message worker window sink (rs ++ more) ≡ some c')
      × Extends file c c'
unfolding recv_message StopWaitSide.recv_message GoBackSide.recv_message
client_worker_refines file fits stop_wait_client window sink rs more empty a b =
    let (c, c', e, e', p, p', le) =
      receive_while_grows (λ c. not c.end) StopWaitSide.receive_one file (StopWaitInv.Delivers file)
        (λ c. c.ack_no) (StopWaitInv.receive_one-Delivers file fits) (StopWaitSide.new_client sink)
        rs more (StopWaitInv.new_client-Delivers file fits sink empty) a b in
    (
      record { sink = c.sink; over = c.end; sent = c.sent },
      record { sink = c'.sink; over = c'.end; sent = c'.sent },
      rw e refl,
      rw e' refl,
      Extends-segments file _ _ c.ack_no c'.ack_no p.holds p'.holds le,
    )
client_worker_refines file fits go_back_client window sink rs more empty a b =
    let (c, c', e, e', p, p', le) =
      receive_while_grows (λ c. not c.end) GoBackSide.receive_one file (GoBackInv.Delivers file)
        (λ c. c.base_ack_no) (GoBackInv.receive_one-Delivers file fits) (GoBackSide.new_client sink)
        rs more (GoBackInv.new_client-Delivers file fits sink empty) a b in
    (
      record { sink = c.sink; over = c.end; sent = c.sent },
      record { sink = c'.sink; over = c'.end; sent = c'.sent },
      rw e refl,
      rw e' refl,
      Extends-segments file _ _ c.base_ack_no c'.base_ack_no p.holds p'.holds le,
    )
client_worker_refines file fits selective_repeat_client window sink rs more empty a b =
    let (c, c', e, e', p, p', le) = selective_grows file fits window sink rs more empty a b in
    (
      record { sink = c.sink; over = not (SelectiveSide.running c); sent = c.sent },
      record { sink = c'.sink; over = not (SelectiveSide.running c'); sent = c'.sent },
      rw e refl,
      rw e' refl,
      Extends-segments file _ _ c.base_ack_no c'.base_ack_no p.collects.holds p'.collects.holds le,
    )
client_worker_refines file fits selective_repeat_cc_client window sink rs more empty a b =
    let (c, c', e, e', p, p', le) = selective_grows file fits window sink rs more empty a b in
    (
      record { sink = c.sink; over = not (SelectiveSide.running c); sent = c.sent },
      record { sink = c'.sink; over = not (SelectiveSide.running c'); sent = c'.sent },
      rw (congestion_client_agrees window sink rs, e) refl,
      rw (congestion_client_agrees window sink (rs ++ more), e') refl,
      Extends-segments file _ _ c.base_ack_no c'.base_ack_no p.collects.holds p'.collects.holds le,
    )
