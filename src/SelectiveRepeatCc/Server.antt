-- ===== src/SelectiveRepeatCc/Server.antt =====
-- selectiveRepeatCCServer.cpp: the worker, with the window of `Congestion`. Its maps, its order and
-- its socket are those of the worker without congestion control, and so is what it does with them.
pub mod Order
pub mod Acknowledging
pub mod Heeding
pub mod Resending
pub mod Sending
pub mod Appending
pub mod Finishing
pub mod Acknowledged
pub mod Lossless
pub mod Completing
mod Tests
use reliable_data_transfer.Base.{
  ℕ, zero, suc, ◌+◌, Bool, true, false, not, ◌&&◌, List, [], ◌∷◌, ◌++◌, Option, none, some, ltb,
  leb, if◌then◌else◌, ◌>>=◌, u32,
}
use reliable_data_transfer.Base.Maps.{lookup, has, insert}
use reliable_data_transfer.Packet.{Packet, AckPacket, create_core_packet, verify_checksum_ack}
use reliable_data_transfer.DataManagers.{has_next, get_next_data_segment}
use reliable_data_transfer.Socket.{
  Host, timeout, time_now, transmit, may_receive, update_remaining_timeout_nc, receive_ack_from,
}
use reliable_data_transfer.Run.{Run, unfinished, returned, done, ◌then◌, or_fault, repeat}
use reliable_data_transfer.SelectiveRepeat.Server.{
  SelectiveRepeatServer, take_off, sent_time, resend, poll, is_empty,
}
use reliable_data_transfer.SelectiveRepeatCc.Congestion.{
  Congestion, new_congestion, window_decrease, acknowledge_one,
}

module _ (h : Host) where
  pub record SelectiveRepeatCcServer : Type 0 where
    pub core : SelectiveRepeatServer h
    pub cong : Congestion

  -- `window_decrease(window, ssthres, miniWin, true)`.
  abbrev pub decreased : SelectiveRepeatCcServer → SelectiveRepeatCcServer
  decreased s = record s { cong = window_decrease true s.cong }

  -- The branches behind the reception. What the acknowledgement does to the window and what it does
  -- to the maps are independent, so the one stands in `acknowledge_one`.
  unfoldable pub acknowledge :
      SelectiveRepeatCcServer → AckPacket → Option (Bool × SelectiveRepeatCcServer)
  acknowledge s ack_packet =
      if s.core.time_out
      then some (false, decreased s)
      else if s.core.error
      then some (false, s)
      else if verify_checksum_ack ack_packet
          && leb s.core.base_seq_no ack_packet.ackno
          && ltb ack_packet.ackno (u32 (s.core.base_seq_no + s.cong.window))
      then (if has (lookup ack_packet.ackno s.core.seqnums_sent)
          then (take_off h ack_packet.ackno s.core
              >>= (λ core. some (true, record { core = core; cong = acknowledge_one s.cong })))
          else some (true, s))
      else some (false, s)

  -- `receive_ack` with the number at the front of the order.
  unfoldable pub receive_ack_for :
      ℕ → SelectiveRepeatCcServer → Option (Bool × SelectiveRepeatCcServer)
  receive_ack_for front s =
      let (send_time, times) = sent_time front s.core.seqnums_sent in
      let t = update_remaining_timeout_nc h timeout send_time s.core.net in
      let (some_data, net) = may_receive h t.over t.net in
      if some_data
      then receive_ack_from h net t.tv >>= (λ (c, net).
        acknowledge
          (record s {
            core = record s.core {
              seqnums_sent = times;
              error = c.error;
              time_out = c.time_out;
              net = net;
            };
          })
          c.packet)
      else some
          (false, decreased (record s { core = record s.core { seqnums_sent = times; net = net } }))

  -- The front of an empty order is undefined.
  unfoldable pub receive_ack : SelectiveRepeatCcServer → Option (Bool × SelectiveRepeatCcServer)
  receive_ack s = elim s.core.send_order [ [] ↦ none | front ∷ order ↦ receive_ack_for front s ]

  -- `updateTimers` from an iterator on, over the order that it found: `transKeys` stops the loop at
  -- the packets that have gone out again.
  unfoldable pub update_timers_from :
      List ℕ → SelectiveRepeatCcServer → Option (Bool × SelectiveRepeatCcServer)
  update_timers_from [] s = some (true, s)
  update_timers_from (i ∷ order) s = elim (lookup i s.core.seqnums_sent) [
    | none ↦ none
    | some send_time ↦
        let t = update_remaining_timeout_nc h timeout send_time s.core.net in
        let s = record s { core = record s.core { net = t.net } } in
        elim t.over [
          | false ↦ some (true, s)
          | true ↦
              let s = decreased s in
              elim (lookup i s.core.data_sent) [
                | none ↦ some (true, s)
                | some packet ↦
                    let (sent, core) = resend h i packet s.core in
                    let s = record s { core = core } in
                    elim sent [ true ↦ update_timers_from order s | false ↦ some (false, s) ]
              ]
        ]
  ]

  -- `if (!updateTimers(...)) return`.
  unfoldable pub timers_or_return :
      SelectiveRepeatCcServer → Run SelectiveRepeatCcServer SelectiveRepeatCcServer
  timers_or_return s = or_fault (update_timers_from s.core.send_order s) then λ (ok, s).
      if ok then done s else returned s

  -- `hasData`.
  unfoldable pub poll_core : SelectiveRepeatCcServer → Bool × SelectiveRepeatCcServer
  poll_core s = let (some_data, core) = poll h s.core in (some_data, record s { core = core })

  -- `while (hasData(sendSocket)) receive_ack(...)`.
  unfoldable pub receive_all :
      ℕ → SelectiveRepeatCcServer → Run SelectiveRepeatCcServer SelectiveRepeatCcServer
  receive_all rounds =
      repeat rounds poll_core (λ s. or_fault (receive_ack s) then λ (ok, s). done s)

  -- `while (no_err && hasData(sendSocket)) no_err = receive_ack(...)`.
  unfoldable pub receive_while_ok :
      ℕ → SelectiveRepeatCcServer → Run SelectiveRepeatCcServer SelectiveRepeatCcServer
  receive_while_ok zero s = unfinished s
  receive_while_ok (suc n) s =
      let (some_data, s) = poll_core s in
      elim some_data [
        | true ↦ or_fault (receive_ack s) then λ (no_err, s). elim no_err [
          | true ↦ receive_while_ok n s
          | false ↦ done s
        ]
        | false ↦ done s
      ]

  unfoldable pub wait :
      ℕ → SelectiveRepeatCcServer → Run SelectiveRepeatCcServer SelectiveRepeatCcServer
  wait rounds s = receive_while_ok rounds s then timers_or_return

  -- A packet that is out is written down, and acknowledgements are taken.
  unfoldable pub after_sending :
      ℕ → Packet → SelectiveRepeatCcServer → Run SelectiveRepeatCcServer SelectiveRepeatCcServer
  after_sending rounds packet s =
      let (now, net) = time_now h s.core.net in
      receive_all rounds (record s {
        core = record s.core {
          data_sent = insert s.core.seq_no packet s.core.data_sent;
          seqnums_sent = insert s.core.seq_no now s.core.seqnums_sent;
          send_order = s.core.send_order ++ s.core.seq_no ∷ [];
          seq_no = u32 (s.core.seq_no + 1);
          net = net;
        };
      })
      then timers_or_return

  unfoldable pub send_next :
      ℕ → SelectiveRepeatCcServer → Run SelectiveRepeatCcServer SelectiveRepeatCcServer
  send_next rounds s =
      let (feeder, segment) = get_next_data_segment s.core.data_feeder in
      or_fault (create_core_packet segment s.core.seq_no) then λ packet.
      let (sent, net) = transmit h s.core.net packet in
      let s = record s { core = record s.core { data_feeder = feeder; net = net } } in
      if sent then after_sending rounds packet s else returned s

  unfoldable pub send_or_wait :
      ℕ → SelectiveRepeatCcServer → Run SelectiveRepeatCcServer SelectiveRepeatCcServer
  send_or_wait rounds s =
      if ltb s.core.seq_no (u32 (s.core.base_seq_no + s.cong.window))
      then send_next rounds s
      else wait rounds s

  -- Both loops, each for so many rounds, and so many for each loop within. The vectors of a new
  -- worker are empty but for `dup_acks`.
  unfoldable pub send_message :
      ℕ → ℕ → List ℕ → SelectiveRepeatServer h → Run SelectiveRepeatCcServer SelectiveRepeatCcServer
  send_message rounds org_window dup_acks worker =
      repeat rounds (λ s. (has_next s.core.data_feeder, s)) (send_or_wait rounds)
        (record {
          core = record worker { seq_no = 0; base_seq_no = 0; send_order = [] };
          cong = new_congestion org_window dup_acks;
        })
      then repeat rounds (λ s. (not (is_empty s.core.send_order), s)) (wait rounds)
