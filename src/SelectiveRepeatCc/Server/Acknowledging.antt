-- ===== src/SelectiveRepeatCc/Server/Acknowledging.antt =====
-- selectiveRepeatCCServer.cpp: what taking an acknowledgement keeps.
use reliable_data_transfer.Base.{
  ℕ, ◌+◌, ◌*◌, ◌≤◌, ◌<◌, ◌^◌, Bool, true, false, List, [], ◌∷◌, All, Option, none, some, ◌≡◌, sym,
  subst, inl, inr, arith, length, Bool-cases, if-both, ltb, leb, if◌then◌else◌, u32, ◌>>=◌, ◌&&◌,
  Option-cases,
}
use reliable_data_transfer.Base.Maps.{lookup, has}
use native.Mathlib.Decide.{ℕ_discrete}
use reliable_data_transfer.Packet.{AckPacket, verify_checksum_ack}
use reliable_data_transfer.Socket.{
  Host, Net, time_now, may_receive, update_remaining_timeout_nc, receive_ack_from, timeout,
  receive_ack_packet,
}
use reliable_data_transfer.Socket.Genuine.{Fits}
use reliable_data_transfer.Socket.Wire.{IsOfTransfer, may_receive-sent}
use reliable_data_transfer.Run.{or_fault, Ensures, bind-Ensures, or_fault-Ensures}
use reliable_data_transfer.SelectiveRepeat.Server.{
  is_in, SelectiveRepeatServer, take_off, sent_time,
}
use reliable_data_transfer.SelectiveRepeat.Server.Acks.{Below}
use reliable_data_transfer.SelectiveRepeat.Server.Order.{IsSound, InOrder, take_off-InOrder}
use reliable_data_transfer.SelectiveRepeat.Server.Receiving.{with_times-Good, sent_time_lem}
use reliable_data_transfer.SelectiveRepeatCc.Congestion.{acknowledge_one}
use reliable_data_transfer.SelectiveRepeatCc.Congestion.Reach.{
  window_decrease-IsSane, acknowledge_one-IsSane,
}
use reliable_data_transfer.SelectiveRepeatCc.Server.{
  SelectiveRepeatCcServer, decreased, acknowledge, receive_ack_for, receive_ack,
}
use reliable_data_transfer.SelectiveRepeatCc.Server.Order.{
  Queued, IsCcSound, IsSteady, Queued-erase, take_off-TakenOff,
}

-- The time of a packet of the order is looked up, or made.
Queued-sent_time :
    (front : ℕ) (times : List (ℕ × ℕ)) (order : List ℕ)
    → is_in front order ≡ true
    → Queued times order
    → Queued (sent_time front times).1 order
unfolding sent_time lookup
Queued-sent_time front times order here q = elim (Option-cases (lookup front times)) [
  | inr (t, there) ↦ rw (there, sent_time) q
  | inl missing ↦
      rw (missing, sent_time)
        (λ i held. elim (ℕ_discrete front i) [
          | yes same ↦ subst (λ j. is_in j order ≡ true) same here
          | no other ↦ q i (ground arith)
        ])
]

module _ (h : Host) (file : List ℕ) (fits : Fits file) (roomy : length file + 2048 ≤ 512 * 2 ^ 32)
    (least : ℕ) where
  abbrev pub Steady : SelectiveRepeatCcServer h → Type 0
  Steady = IsSteady h file least

  abbrev pub SteadyResult : Bool × SelectiveRepeatCcServer h → Type 0
  SteadyResult r = Steady r.1

  pub Steady-Sound : (s : SelectiveRepeatCcServer h) → Steady s → IsCcSound h file s
  Steady-Sound s p = record {
    low = p.in_order.low;
    open_window = p.sane.open_window;
    bounded = omega (arith, p.sane.bounded, p.budget);
    wire = p.in_order.wire;
  }

  pub decreased-Steady : (s : SelectiveRepeatCcServer h) → Steady s → Steady (decreased h s)
  decreased-Steady s p = record {
    in_order = p.in_order;
    queued = p.queued;
    most = p.most;
    budget = p.budget;
    sane = window_decrease-IsSane p.most true s.cong p.sane;
  }

  -- Times that name the same packets, and other flags and a later network.
  pub with_times-Steady :
      (s : SelectiveRepeatCcServer h) (times : List (ℕ × ℕ)) (error time_out : Bool) (net : Net h)
      → Steady s
      → Below s.core.seq_no times
      → ((i : ℕ) → has (lookup i s.core.seqnums_sent) ≡ true → has (lookup i times) ≡ true)
      → Queued times s.core.send_order
      → All (IsOfTransfer file) net.sent
      → Steady (record s {
        core = record s.core {
          seqnums_sent = times;
          error = error;
          time_out = time_out;
          net = net;
        };
      })
  with_times-Steady s times error time_out net p timed same queued wire = record {
    in_order =
        with_times-Good h file fits (2 ^ 32) least s.core times error time_out net p.in_order timed
          same wire;
    queued = queued;
    most = p.most;
    budget = p.budget;
    sane = p.sane;
  }

  -- A later network alone.
  pub with_net-Steady :
      (s : SelectiveRepeatCcServer h) (net : Net h)
      → Steady s
      → All (IsOfTransfer file) net.sent
      → Steady (record s { core = record s.core { net = net } })
  with_net-Steady s net p wire =
      with_times-Steady s s.core.seqnums_sent s.core.error s.core.time_out net p p.in_order.timed
        (λ i held. held) p.queued wire

  -- The packet goes, and the window may grow by one or shrink.
  taken-Steady :
      (ackno : ℕ) (s : SelectiveRepeatCcServer h) (core : SelectiveRepeatServer h)
      → Steady s
      → ackno < s.core.seq_no
      → take_off h ackno s.core ≡ some core
      → Steady (record { core = core; cong = acknowledge_one s.cong })
  unfolding or_fault
  taken-Steady ackno s core p below e =
      let t = take_off-TakenOff h ackno s.core core e in
      let most_seq = p.in_order.reads.most in
      record {
        in_order =
            subst
              (λ o. Ensures (IsSound h file (2 ^ 32)) (InOrder h file (2 ^ 32) least) (or_fault o))
              e (take_off-InOrder h file fits (2 ^ 32) least ackno s.core p.in_order below);
        queued =
            rw (t.times, t.order)
              (Queued-erase ackno s.core.seqnums_sent s.core.send_order p.queued);
        most = p.most + 1;
        budget = omega (arith, t.fewer, t.same_seq, p.budget);
        sane = acknowledge_one-IsSane p.most s.cong (omega (arith, p.budget, t.fewer)) p.sane;
      }

  acknowledge-Steady :
      (s : SelectiveRepeatCcServer h) (ack : AckPacket)
      → Steady s
      → Ensures (IsCcSound h file) SteadyResult (or_fault (acknowledge h s ack))
  unfolding acknowledge or_fault
  acknowledge-Steady s ack p =
      if-both P s.core.time_out _ _ (λ _. decreased-Steady s p)
        (λ _.
          if-both P s.core.error _ _ (λ _. p)
            (λ _.
              if-both P
                (verify_checksum_ack ack
                  && leb s.core.base_seq_no ack.ackno
                  && ltb ack.ackno (u32 (s.core.base_seq_no + s.cong.window)))
                (if has (lookup ack.ackno s.core.seqnums_sent) then taken else some (true, s))
                (some (false, s))
                (λ _.
                  if-both P (has (lookup ack.ackno s.core.seqnums_sent)) taken (some (true, s))
                    (λ waits.
                      bind-Ensures (IsCcSound h file)
                        (λ core. take_off h ack.ackno s.core ≡ some core) SteadyResult
                        (take_off h ack.ackno s.core) _
                        (or_fault-Ensures (IsCcSound h file) _ _ (λ core e. e))
                        (λ core e.
                          taken-Steady ack.ackno s core p (p.in_order.timed ack.ackno waits) e))
                    (λ _. p))
                (λ _. p)))
    where
      P : Option (Bool × SelectiveRepeatCcServer h) → Type 0
      P o = Ensures (IsCcSound h file) SteadyResult (or_fault o)

      taken : Option (Bool × SelectiveRepeatCcServer h)
      taken =
          take_off h ack.ackno s.core
          >>= (λ core. some (true, record { core = core; cong = acknowledge_one s.cong }))

  receive_ack_for-Steady :
      (front : ℕ) (s : SelectiveRepeatCcServer h)
      → Steady s
      → front < s.core.seq_no
      → is_in front s.core.send_order ≡ true
      → Ensures (IsCcSound h file) SteadyResult (or_fault (receive_ack_for h front s))
  unfolding receive_ack_for or_fault update_remaining_timeout_nc time_now receive_ack_from
  receive_ack_for-Steady front s p lt here =
      let (timed, same) =
        sent_time_lem h file fits (2 ^ 32) least front s.core.seq_no s.core.seqnums_sent lt
          p.in_order.timed in
      let queued = Queued-sent_time front s.core.seqnums_sent s.core.send_order here p.queued in
      let (send_time, times) = sent_time front s.core.seqnums_sent in
      let t = update_remaining_timeout_nc h timeout send_time s.core.net in
      let r = may_receive h t.over t.net in
      let wire : All (IsOfTransfer file) r.1.sent =
        subst (All (IsOfTransfer file)) (sym (may_receive-sent h t.over t.net)) p.in_order.wire in
      elim (Bool-cases r.0) [
        | inr nothing ↦
            rw (nothing, Ensures)
              (decreased-Steady _ (
                with_times-Steady s times s.core.error s.core.time_out r.1 p timed same queued
                  wire))
        | inl something ↦ rw something (
            bind-Ensures (IsCcSound h file) (λ (c, net). All (IsOfTransfer file) (Net.sent net))
              SteadyResult (receive_ack_from h r.1 t.tv) _
              (bind-Ensures (IsCcSound h file) (λ c. Unit) _
                (receive_ack_packet (Host.recvfrom h t.tv r.1.world).0) _
                (or_fault-Ensures (IsCcSound h file) (λ c. Unit) _ (λ c e. tt)) (λ c u. wire))
              (λ (c, net) wire'.
                acknowledge-Steady _ c.packet
                  (with_times-Steady s times c.error c.time_out net p timed same queued wire')))
      ]

  pub receive_ack-Steady :
      (s : SelectiveRepeatCcServer h)
      → Steady s
      → Ensures (IsCcSound h file) SteadyResult (or_fault (receive_ack h s))
  unfolding receive_ack or_fault is_in
  receive_ack-Steady s p = from_front s.core.send_order p.in_order.order (λ i held. held)
    where
      from_front :
          (order : List ℕ)
          → All (λ i. i < s.core.seq_no) order
          → ((i : ℕ) → is_in i order ≡ true → is_in i s.core.send_order ≡ true)
          → Ensures
              (IsCcSound h file)
              SteadyResult
              (or_fault (elim order [ [] ↦ none | front ∷ later ↦ receive_ack_for h front s ]))
      from_front [] a sub = tt
      from_front (front ∷ later) (lt, a) sub =
          receive_ack_for-Steady front s p lt (sub front (ground arith))
