-- ===== src/SelectiveRepeat/Server.antt =====
-- SelectiveRepeatServer.cpp. The locals of `send_message` stand in the worker's record. An iterator
-- into the send order is the number it points at, since no number is in the order twice; so the map
-- of iterators has the numbers in the order as its keys.
pub mod Acks
pub mod Order
pub mod Receiving
pub mod Heeding
pub mod Resending
pub mod Sending
pub mod Appending
pub mod Finishing
pub mod Acknowledged
pub mod Completing
mod Tests
use reliable_data_transfer.Base.{
  ℕ, zero, suc, ◌+◌, Bool, true, false, not, ◌&&◌, ◌||◌, List, [], ◌∷◌, ◌++◌, Option, none, some,
  ltb, leb, ◌==◌, if◌then◌else◌, ◌>>=◌, u32, length,
}
use reliable_data_transfer.Base.Maps.{lookup, has, insert, assign, erase}
use reliable_data_transfer.Packet.{Packet, AckPacket, create_core_packet, verify_checksum_ack}
use reliable_data_transfer.DataManagers.{DataFeeder, has_next, get_next_data_segment}
use reliable_data_transfer.Socket.{
  Host, Net, timeout, time_now, has_data, transmit, may_receive, update_remaining_timeout_nc,
  receive_ack_from,
}
use reliable_data_transfer.Run.{Run, unfinished, returned, done, ◌then◌, or_fault, repeat}

-- `set<uint32_t> acks`.
abbrev pub AckSet : Type 0
AckSet = List (ℕ × Unit)

-- `while (acks.find(base_seq_no) != acks.end()) { erase it; base_seq_no++; }`: each round takes one
-- number out, so the size of the set is fuel enough.
unfoldable pub forward : ℕ → ℕ → AckSet → ℕ × AckSet
forward zero base acks = (base, acks)
forward (suc fuel) base acks = elim (lookup base acks) [
  | none ↦ (base, acks)
  | some here ↦ forward fuel (u32 (base + 1)) (erase base acks)
]

unfoldable pub is_in : ℕ → List ℕ → Bool
is_in i [] = false
is_in i (j ∷ order) = (j == i) || is_in i order

-- `sendOrder.erase(sendOrderIterators[i])`.
unfoldable pub remove : ℕ → List ℕ → List ℕ
remove i [] = []
remove i (j ∷ order) = let rest = remove i order in if j == i then order else j ∷ rest

unfoldable pub is_empty {ℓ} : {A : Type ℓ} → List A → Bool
is_empty [] = true
is_empty (x ∷ xs) = false

-- `seqnums_sent[i]`, which makes an entry where there is none.
unfoldable pub sent_time : ℕ → List (ℕ × ℕ) → ℕ × List (ℕ × ℕ)
sent_time i times = elim (lookup i times) [ none ↦ (0, (i, 0) ∷ times) | some time ↦ (time, times) ]

module _ (h : Host) where
  pub record SelectiveRepeatServer : Type 0 where
    pub base_seq_no : ℕ
    pub seq_no : ℕ
    pub send_order : List ℕ
    pub seqnums_sent : List (ℕ × ℕ)
    pub data_sent : List (ℕ × Packet)
    pub acks : AckSet
    pub error : Bool
    pub time_out : Bool
    pub data_feeder : DataFeeder
    pub net : Net h

  -- The entries of an acknowledged packet go, and the window moves on. An entry that is not there is
  -- erased at the end of its container, which is undefined.
  unfoldable pub take_off : ℕ → SelectiveRepeatServer → Option SelectiveRepeatServer
  take_off ackno s =
      let acks = insert ackno tt s.acks in
      let (base, acks) = forward (length acks) s.base_seq_no acks in
      if has (lookup ackno s.data_sent) && is_in ackno s.send_order
      then some (record s {
        base_seq_no = base;
        acks = acks;
        seqnums_sent = erase ackno s.seqnums_sent;
        data_sent = erase ackno s.data_sent;
        send_order = remove ackno s.send_order;
      })
      else none

  -- The same as this worker does it: it reads the number behind `it` once more after it has erased
  -- the entry, which is undefined unless the number is still in its place.
  unfoldable pub take_off_freed : ℕ → SelectiveRepeatServer → Option SelectiveRepeatServer
  take_off_freed ackno s = if Host.keeps_freed h then take_off ackno s else none

  -- The branches behind the reception.
  unfoldable pub acknowledge :
      ℕ → SelectiveRepeatServer → AckPacket → Option (Bool × SelectiveRepeatServer)
  acknowledge window s ack_packet =
      if s.time_out
      then some (false, s)
      else if s.error
      then some (false, s)
      else if verify_checksum_ack ack_packet
          && leb s.base_seq_no ack_packet.ackno
          && ltb ack_packet.ackno (u32 (s.base_seq_no + window))
      then (if has (lookup ack_packet.ackno s.seqnums_sent)
          then (take_off_freed ack_packet.ackno s >>= (λ s. some (true, s)))
          else some (true, s))
      else some (false, s)

  -- `receive_ack` with the number at the front of the order.
  unfoldable pub receive_ack_for :
      ℕ → ℕ → SelectiveRepeatServer → Option (Bool × SelectiveRepeatServer)
  receive_ack_for window front s =
      let (send_time, times) = sent_time front s.seqnums_sent in
      let t = update_remaining_timeout_nc h timeout send_time s.net in
      let (some_data, net) = may_receive h t.over t.net in
      if some_data
      then receive_ack_from h net t.tv >>= (λ (c, net).
        acknowledge window
          (record s { seqnums_sent = times; error = c.error; time_out = c.time_out; net = net })
          c.packet)
      else some (false, record s { seqnums_sent = times; net = net })

  -- The front of an empty order is undefined.
  unfoldable pub receive_ack : ℕ → SelectiveRepeatServer → Option (Bool × SelectiveRepeatServer)
  receive_ack window s = elim s.send_order [
    | [] ↦ none
    | front ∷ order ↦ receive_ack_for window front s
  ]

  -- A packet that is late goes out again, to the end of the order and with a new time.
  unfoldable pub resend : ℕ → Packet → SelectiveRepeatServer → Bool × SelectiveRepeatServer
  resend i packet s =
      let (sent, net) = transmit h s.net packet in
      let (now, net') = time_now h net in
      if sent
      then (
        true,
        record s {
          seqnums_sent = assign i now s.seqnums_sent;
          send_order = remove i s.send_order ++ packet.seqno ∷ [];
          net = net';
        },
      )
      else (false, record s { net = net })

  -- `updateTimers` from an iterator on, up to the first packet that is in time. The packets that go
  -- out again go to the end of the order, where `resend_pack_ids` stops the loop: so it walks over
  -- the order that it found.
  unfoldable pub update_timers_from :
      List ℕ → SelectiveRepeatServer → Option (Bool × SelectiveRepeatServer)
  update_timers_from [] s = some (true, s)
  update_timers_from (i ∷ order) s = elim (lookup i s.seqnums_sent) [
    | none ↦ none
    | some send_time ↦
        let t = update_remaining_timeout_nc h timeout send_time s.net in
        let s = record s { net = t.net } in
        elim t.over [
          | false ↦ some (true, s)
          | true ↦ elim (lookup i s.data_sent) [
            | none ↦ none
            | some packet ↦
                let (sent, s) = resend i packet s in
                elim sent [ true ↦ update_timers_from order s | false ↦ some (false, s) ]
          ]
        ]
  ]

  unfoldable pub update_timers : SelectiveRepeatServer → Option (Bool × SelectiveRepeatServer)
  update_timers s = update_timers_from s.send_order s

  unfoldable pub poll : SelectiveRepeatServer → Bool × SelectiveRepeatServer
  poll s = let (some_data, net) = has_data h s.net in (some_data, record s { net = net })

  -- `while (hasData(sendSocket)) receive_ack(...)`.
  unfoldable pub receive_all :
      ℕ → ℕ → SelectiveRepeatServer → Run SelectiveRepeatServer SelectiveRepeatServer
  receive_all rounds window =
      repeat rounds poll (λ s. or_fault (receive_ack window s) then λ (ok, s). done s)

  -- `while (no_err && hasData(sendSocket)) no_err = receive_ack(...)`.
  unfoldable pub receive_while_ok :
      ℕ → ℕ → SelectiveRepeatServer → Run SelectiveRepeatServer SelectiveRepeatServer
  receive_while_ok zero window s = unfinished s
  receive_while_ok (suc n) window s =
      let (some_data, s) = poll s in
      elim some_data [
        | true ↦ or_fault (receive_ack window s) then λ (no_err, s). elim no_err [
          | true ↦ receive_while_ok n window s
          | false ↦ done s
        ]
        | false ↦ done s
      ]

  -- `if (!updateTimers(...)) return`.
  unfoldable pub timers_or_return :
      SelectiveRepeatServer → Run SelectiveRepeatServer SelectiveRepeatServer
  timers_or_return s = or_fault (update_timers s) then λ (ok, s). if ok then done s else returned s

  unfoldable pub wait :
      ℕ → ℕ → SelectiveRepeatServer → Run SelectiveRepeatServer SelectiveRepeatServer
  wait rounds window s = receive_while_ok rounds window s then timers_or_return

  -- A packet that is out is written down, and acknowledgements are taken.
  unfoldable pub after_sending :
      ℕ → ℕ → Packet → SelectiveRepeatServer → Run SelectiveRepeatServer SelectiveRepeatServer
  after_sending rounds window packet s =
      let (now, net) = time_now h s.net in
      receive_all rounds window (record s {
        data_sent = insert s.seq_no packet s.data_sent;
        seqnums_sent = insert s.seq_no now s.seqnums_sent;
        send_order = s.send_order ++ s.seq_no ∷ [];
        seq_no = u32 (s.seq_no + 1);
        net = net;
      })
      then timers_or_return

  unfoldable pub send_next :
      ℕ → ℕ → SelectiveRepeatServer → Run SelectiveRepeatServer SelectiveRepeatServer
  send_next rounds window s =
      let (feeder, segment) = get_next_data_segment s.data_feeder in
      or_fault (create_core_packet segment s.seq_no) then λ packet.
      let (sent, net) = transmit h s.net packet in
      let s = record s { data_feeder = feeder; net = net } in
      if sent then after_sending rounds window packet s else returned s

  unfoldable pub send_or_wait :
      ℕ → ℕ → SelectiveRepeatServer → Run SelectiveRepeatServer SelectiveRepeatServer
  send_or_wait rounds window s =
      if ltb s.seq_no (u32 (s.base_seq_no + window))
      then send_next rounds window s
      else wait rounds window s

  -- Both loops, each for so many rounds, and so many for each loop within.
  unfoldable pub send_message :
      ℕ → ℕ → SelectiveRepeatServer → Run SelectiveRepeatServer SelectiveRepeatServer
  send_message rounds window s =
      repeat rounds (λ s. (has_next s.data_feeder, s)) (send_or_wait rounds window)
        (record s { seq_no = 0; base_seq_no = 0; send_order = [] })
      then repeat rounds (λ s. (not (is_empty s.seqnums_sent), s)) (wait rounds window)
