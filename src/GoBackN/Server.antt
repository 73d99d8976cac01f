-- ===== src/GoBackN/Server.antt =====
-- GoBackServer.cpp. The locals of `send_message` stand in the worker's record.
pub mod Window
pub mod Acks
pub mod Acknowledging
pub mod Heeding
pub mod Waiting
pub mod Sending
pub mod Finishing
pub mod Acknowledged
pub mod Completing
mod Tests
use reliable_data_transfer.Base.{
  ℕ, zero, suc, ◌+◌, Bool, true, false, not, ◌&&◌, List, [], ◌∷◌, ◌++◌, Option, none, some, ltb,
  leb, if◌then◌else◌, ◌>>=◌, u32,
}
use reliable_data_transfer.Packet.{Packet, AckPacket, create_core_packet, verify_checksum_ack}
use reliable_data_transfer.DataManagers.{DataFeeder, has_next, get_next_data_segment}
use reliable_data_transfer.Socket.{
  Host, Net, timeout, time_now, has_data, transmit, update_remaining_timeout_nc, receive_ack_from,
  may_receive,
}
use reliable_data_transfer.Run.{Run, fault, returned, done, ◌then◌, or_fault, repeat}

-- `while (base_seq_no <= ackno) { erase the first; base_seq_no++; }`: erasing from an empty vector
-- is undefined.
unfoldable pub slide : ℕ → ℕ → List Packet → Option (ℕ × List Packet)
slide ackno base [] = if leb base ackno then none else some (base, [])
slide ackno base (p ∷ unacked) =
    let further = slide ackno (u32 (base + 1)) unacked in
    if leb base ackno then further else some (base, p ∷ unacked)

unfoldable pub is_empty : List Packet → Bool
is_empty [] = true
is_empty (p ∷ ps) = false

module _ (h : Host) where
  pub record GoBackServer : Type 0 where
    pub base_seq_no : ℕ
    pub seq_no : ℕ
    pub error : Bool
    pub time_out : Bool
    pub send_time : ℕ
    pub unacked_packet : List Packet
    pub data_feeder : DataFeeder
    pub net : Net h

  unfoldable pub restart_timer : GoBackServer → GoBackServer
  restart_timer s = let (now, net) = time_now h s.net in record s { send_time = now; net = net }

  -- The branches behind the reception.
  unfoldable pub acknowledge : ℕ → GoBackServer → AckPacket → Option (Bool × GoBackServer)
  acknowledge window s ack_packet =
      if s.time_out
      then some (false, s)
      else if s.error
      then some (false, s)
      else if verify_checksum_ack ack_packet
          && leb s.base_seq_no ack_packet.ackno
          && ltb ack_packet.ackno (u32 (s.base_seq_no + window))
      then slide ack_packet.ackno s.base_seq_no s.unacked_packet >>= (λ (base, unacked).
        let s = record s { base_seq_no = base; unacked_packet = unacked } in
        some (true, if is_empty unacked then s else restart_timer s))
      else some (false, s)

  unfoldable pub receive_ack : ℕ → GoBackServer → Option (Bool × GoBackServer)
  receive_ack window s =
      let t = update_remaining_timeout_nc h timeout s.send_time s.net in
      let (some_data, net) = may_receive h t.over t.net in
      if some_data
      then receive_ack_from h net t.tv >>= (λ (c, net).
        acknowledge window (record s { error = c.error; time_out = c.time_out; net = net })
          c.packet)
      else some (false, record s { net = net })

  -- The loop of `updateTimer` over the packets, `first` being `i == 0`.
  unfoldable pub retransmit : List Packet → Bool → GoBackServer → Bool × GoBackServer
  retransmit [] first s = (true, s)
  retransmit (p ∷ ps) first s =
      let (sent, net) = transmit h s.net p in
      let s = record s { net = net } in
      elim sent [
        | true ↦ retransmit ps false (if first then restart_timer s else s)
        | false ↦ (false, s)
      ]

  unfoldable pub update_timer : GoBackServer → Bool × GoBackServer
  update_timer s =
      let t = update_remaining_timeout_nc h timeout s.send_time s.net in
      let s = record s { net = t.net } in
      if t.over then retransmit s.unacked_packet true s else (true, s)

  unfoldable pub poll : GoBackServer → Bool × GoBackServer
  poll s = let (some_data, net) = has_data h s.net in (some_data, record s { net = net })

  -- `while (hasData(sendSocket)) receive_ack(...)`.
  unfoldable pub receive_all : ℕ → ℕ → GoBackServer → Run GoBackServer GoBackServer
  receive_all rounds window =
      repeat rounds poll (λ s. or_fault (receive_ack window s) then λ (ok, s). done s)

  -- `while (no_err && hasData(sendSocket)) no_err = receive_ack(...)`.
  unfoldable pub receive_while_ok : ℕ → ℕ → GoBackServer → Run GoBackServer GoBackServer
  receive_while_ok zero window s = Run.unfinished s
  receive_while_ok (suc n) window s =
      let (some_data, s) = poll s in
      elim some_data [
        | true ↦ or_fault (receive_ack window s) then λ (no_err, s). elim no_err [
          | true ↦ receive_while_ok n window s
          | false ↦ done s
        ]
        | false ↦ done s
      ]

  -- `if (!updateTimer(...)) return`.
  unfoldable pub timer_or_return : GoBackServer → Run GoBackServer GoBackServer
  timer_or_return s = let (ok, s) = update_timer s in if ok then done s else returned s

  unfoldable pub wait : ℕ → ℕ → GoBackServer → Run GoBackServer GoBackServer
  wait rounds window s = receive_while_ok rounds window s then timer_or_return

  -- A packet that is out: the timer starts with the first one, and acknowledgements are taken.
  unfoldable pub after_sending : ℕ → ℕ → Packet → GoBackServer → Run GoBackServer GoBackServer
  after_sending rounds window packet s =
      let s = if is_empty s.unacked_packet then restart_timer s else s in
      receive_all rounds window
        (record s { seq_no = u32 (s.seq_no + 1); unacked_packet = s.unacked_packet ++ packet ∷ [] })
      then λ s. done (update_timer s).1

  unfoldable pub send_next : ℕ → ℕ → GoBackServer → Run GoBackServer GoBackServer
  send_next rounds window s =
      let (feeder, segment) = get_next_data_segment s.data_feeder in
      or_fault (create_core_packet segment s.seq_no) then λ packet.
      let (sent, net) = transmit h s.net packet in
      let s = record s { data_feeder = feeder; net = net } in
      if sent then after_sending rounds window packet s else returned s

  unfoldable pub send_or_wait : ℕ → ℕ → GoBackServer → Run GoBackServer GoBackServer
  send_or_wait rounds window s =
      if ltb s.seq_no (u32 (s.base_seq_no + window))
      then send_next rounds window s
      else wait rounds window s

  -- Both loops, each for so many rounds, and so many for each loop within.
  unfoldable pub send_message : ℕ → ℕ → GoBackServer → Run GoBackServer GoBackServer
  send_message rounds window s =
      repeat rounds (λ s. (has_next s.data_feeder, s)) (send_or_wait rounds window)
        (record s { seq_no = 0; base_seq_no = 0 })
      then repeat rounds (λ s. (not (is_empty s.unacked_packet), s)) (wait rounds window)
