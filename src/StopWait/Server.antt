-- ===== src/StopWait/Server.antt =====
-- StopWaitServer.cpp. The sequence number of `send_message` stands in the worker's record, which
-- `resend_packet` changes through a pointer.
pub mod Sequence
pub mod Awaiting
pub mod Sending
pub mod Completing
mod Tests
use reliable_data_transfer.Base.{
  ℕ, zero, suc, ◌+◌, Bool, true, false, ◌||◌, ◌&&◌, ◌==◌, if◌then◌else◌, u32,
}
use reliable_data_transfer.Packet.{Packet, AckPacket, create_core_packet, verify_checksum_ack}
use reliable_data_transfer.DataManagers.{DataFeeder, has_next, get_next_data_segment}
use reliable_data_transfer.Socket.{
  Host, Net, timeout, time_now, transmit, update_remaining_timeout, receive_ack_from,
}
use reliable_data_transfer.Run.{Run, unfinished, returned, done, ◌then◌, or_fault, repeat}

-- How waiting for an acknowledgement ends: with the one awaited, by a timeout or by an error.
pub data Answer : Type 0 where
  acked : Answer
  late : Answer
  failed : Answer

module _ (h : Host) where
  pub record StopWaitServer : Type 0 where
    pub seq_no : ℕ
    pub error : Bool
    pub time_out : Bool
    pub data_feeder : DataFeeder
    pub net : Net h

  -- `gettimeofday(&sendTime, NULL)`.
  unfoldable pub now : StopWaitServer → ℕ × StopWaitServer
  now s = let (time, net) = time_now h s.net in (time, record s { net = net })

  -- The tests behind the reception; `bad` is what follows `goto bad_pack`.
  unfoldable pub judge :
      StopWaitServer
      → AckPacket
      → Run StopWaitServer (Answer × StopWaitServer)
      → Run StopWaitServer (Answer × StopWaitServer)
  judge s ack_packet bad =
      if s.time_out
      then done (late, s)
      else if s.error
      then done (failed, s)
      else if verify_checksum_ack ack_packet && (ack_packet.ackno == s.seq_no)
      then done (acked, record s { seq_no = u32 (s.seq_no + 1) })
      else bad

  -- From the label `bad_pack` on, going back to it so many times.
  unfoldable pub await_ack :
      ℕ → ℕ → ℕ → StopWaitServer → Run StopWaitServer (Answer × StopWaitServer)
  await_ack zero tv send_time s = unfinished s
  await_ack (suc n) tv send_time s =
      let t = update_remaining_timeout h tv send_time s.net in
      elim t.over [
        | true ↦ done (late, record s { net = t.net })
        | false ↦ or_fault (receive_ack_from h t.net t.tv) then λ (c, net).
            let s = record s { error = c.error; time_out = c.time_out; net = net } in
            judge s c.packet (await_ack n t.tv t.old_time s)
      ]

  unfoldable pub transmit_packet : Packet → StopWaitServer → Bool × StopWaitServer
  transmit_packet packet s =
      let (sent, net) = transmit h s.net packet in (sent, record s { net = net })

  -- `resend_packet`: a failure of `sendto` ends `send_message` too.
  unfoldable pub resend_packet : ℕ → ℕ → Packet → StopWaitServer → Run StopWaitServer StopWaitServer
  resend_packet zero rounds packet s = unfinished s
  resend_packet (suc n) rounds packet s =
      let (sent, s) = transmit_packet packet s in
      let (time, s') = now s in
      elim sent [
        | true ↦ await_ack rounds timeout time s' then λ (answer, s). elim answer [
          | acked ↦ done s
          | late ↦ resend_packet n rounds packet s
          | failed ↦ resend_packet n rounds packet s
        ]
        | false ↦ returned s
      ]

  -- Behind the first transmission.
  unfoldable pub finish_packet : ℕ → Packet → StopWaitServer → Run StopWaitServer StopWaitServer
  finish_packet rounds packet s =
      let (time, s) = now s in
      await_ack rounds timeout time s then λ (answer, s). elim answer [
        | acked ↦ done s
        | late ↦ resend_packet rounds rounds packet (now s).1
        | failed ↦ returned s
      ]

  unfoldable pub send_next : ℕ → StopWaitServer → Run StopWaitServer StopWaitServer
  send_next rounds s =
      let (feeder, segment) = get_next_data_segment s.data_feeder in
      or_fault (create_core_packet segment s.seq_no) then λ packet.
      let (sent, s) = transmit_packet packet (now (record s { data_feeder = feeder })).1 in
      if sent then finish_packet rounds packet s else returned s

  -- So many packets, and so many rounds for each loop within.
  unfoldable pub send_message : ℕ → StopWaitServer → Run StopWaitServer StopWaitServer
  send_message rounds s =
      repeat rounds (λ s. (has_next s.data_feeder, s)) (send_next rounds) (record s { seq_no = 0 })
