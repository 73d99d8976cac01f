-- ===== src/SelectiveRepeat/Server/Acknowledged.antt =====
-- SelectiveRepeatServer.cpp over a network that loses nothing: one packet and its acknowledgement.
use reliable_data_transfer.Base.{
  ℕ, suc, ◌+◌, ◌<◌, ◌%◌, ◌^◌, true, false, List, [], ◌∷◌, some, none, ap, ◌≡◌, refl, ◌∙◌, arith,
  u32, ◌&&◌, ltb, leb, if◌then◌else◌,
}
use reliable_data_transfer.Base.Maps.{lookup, insert, erase}
use reliable_data_transfer.Packet.{Packet, create_ack_packet, verify_checksum_ack}
use reliable_data_transfer.Socket.{
  Host, Net, timeout, time_now, has_data, may_receive, update_remaining_timeout_nc,
}
use reliable_data_transfer.Socket.Genuine.{Fits}
use reliable_data_transfer.Socket.Lossless.{
  IsLossless, IsIdle, IsPending, create_ack_packet_verifies, create_ack_packet_ackno,
  receive_ack_from_lossless, update_remaining_timeout_nc_lossless,
}
use reliable_data_transfer.Run.{Run, done, ◌then◌, or_fault, repeat_round, repeat_stop}
use reliable_data_transfer.SelectiveRepeat.Server.{
  SelectiveRepeatServer, forward, is_in, remove, take_off, take_off_freed, acknowledge, sent_time,
  receive_ack_for, receive_ack, update_timers_from, update_timers, poll, receive_all,
  timers_or_return, after_sending,
}

-- The map with one entry.
pub lookup_one : {V : Type 0} (i : ℕ) (v : V) → lookup i ((i, v) ∷ []) ≡ some v
unfolding lookup
lookup_one i v = ground arith

erase_one : {V : Type 0} (i : ℕ) (v : V) → erase i ((i, v) ∷ []) ≡ []
unfolding erase
erase_one i v = ground arith

insert_one : {V : Type 0} (i : ℕ) (v : V) → insert i v [] ≡ (i, v) ∷ []
unfolding insert lookup
insert_one i v = refl

is_in_one : (i : ℕ) → is_in i (i ∷ []) ≡ true
unfolding is_in
is_in_one i = ground arith

remove_one : (i : ℕ) → remove i (i ∷ []) ≡ []
unfolding remove
remove_one i = ground arith

-- The set with the base alone moves the base on by one.
forward_one : (i : ℕ) → i + 1 < 2 ^ 32 → forward 1 i ((i, tt) ∷ []) ≡ (i + 1, [])
unfolding forward
forward_one i small =
    let no_wrap : (i + 1) % 2 ^ 32 ≡ i + 1 = omega arith in
    rw (lookup_one i tt, forward, erase_one i tt, no_wrap) refl

pub sent_time_one : (i time : ℕ) → sent_time i ((i, time) ∷ []) ≡ (time, (i, time) ∷ [])
unfolding sent_time
sent_time_one i time = rw (lookup_one i time, sent_time) refl

module _ (h : Host) where
  -- The worker with one packet out, and the same without it.
  abbrev pub with_one : ℕ → Packet → ℕ → SelectiveRepeatServer h → SelectiveRepeatServer h
  with_one i packet now s = record s {
    send_order = i ∷ [];
    seqnums_sent = (i, now) ∷ [];
    data_sent = (i, packet) ∷ [];
    acks = [];
    base_seq_no = i;
  }

  abbrev pub with_none : ℕ → SelectiveRepeatServer h → SelectiveRepeatServer h
  with_none base s = record s {
    send_order = [];
    seqnums_sent = [];
    data_sent = [];
    acks = [];
    base_seq_no = base;
  }

  -- What the reception of the one acknowledgement leaves.
  abbrev pub received_one : ℕ → Net h → SelectiveRepeatServer h → SelectiveRepeatServer h
  received_one base net s = record (with_none base s) { error = false; time_out = false; net = net }

  pub take_off_one :
      (i now : ℕ) (packet : Packet) (s : SelectiveRepeatServer h)
      → i + 1 < 2 ^ 32
      → take_off h i (with_one i packet now s) ≡ some (with_none (i + 1) s)
  unfolding take_off
  take_off_one i now packet s small =
      rw
        (
          insert_one i tt,
          forward_one i small,
          lookup_one i packet,
          is_in_one i,
          erase_one i now,
          erase_one i packet,
          remove_one i,
        )
        refl

pub take_off_freed_one :
    (h : Host) (i now : ℕ) (packet : Packet) (s : SelectiveRepeatServer h)
    → Host.keeps_freed h ≡ true
    → i + 1 < 2 ^ 32
    → take_off_freed h i (with_one h i packet now s) ≡ some (with_none h (i + 1) s)
unfolding take_off_freed
take_off_freed_one h i now packet s keeps small =
    ap (λ b. if b then take_off h i (with_one h i packet now s) else none) keeps
    ∙ take_off_one h i now packet s small

module _ (h : Host) (file : List ℕ) (fits : Fits file) (l : IsLossless h file)
    (keeps : Host.keeps_freed h ≡ true) (window : ℕ) where
  receive_ack_lossless :
      (i : ℕ) (s : SelectiveRepeatServer h) (packet : Packet)
      → IsPending h file l i s.net
      → i + 1 < 2 ^ 32
      → 0 < window
      → i + window < 2 ^ 32
      → (net' : Net h) × (receive_ack h window (with_one h i packet l.now s)
          ≡ some (
            true,
            record (with_none h (i + 1) s) { error = false; time_out = false; net = net' },
          ))
        × IsIdle h file l (i + 1) net'
  unfolding receive_ack receive_ack_for acknowledge may_receive update_remaining_timeout_nc time_now
  receive_ack_lossless i s packet pending small open_at no_wrap =
      let in_time = update_remaining_timeout_nc_lossless h file l s.net in
      let t = update_remaining_timeout_nc h timeout l.now s.net in
      let (net', received, idle) =
        receive_ack_from_lossless h file l i t.tv t.net
          (l.clock_pending i s.net.world pending.0, pending.1) (omega arith) in
      let accepted : (verify_checksum_ack (create_ack_packet i)
            && leb i (create_ack_packet i).ackno
            && ltb (create_ack_packet i).ackno (u32 (i + window)))
          ≡ true =
        ground (arith, create_ack_packet_verifies i, create_ack_packet_ackno i) in
      (
        net',
        rw
            (
              sent_time_one i l.now,
              in_time,
              received,
              accepted,
              create_ack_packet_ackno i,
              lookup_one i l.now,
              take_off_freed_one h i l.now packet
                  (record s { error = false; time_out = false; net = net' }) keeps small,
            )
            refl,
        idle,
      )

  receive_all_lossless :
      (n i : ℕ) (s : SelectiveRepeatServer h) (packet : Packet)
      → IsPending h file l i s.net
      → i + 1 < 2 ^ 32
      → 0 < window
      → i + window < 2 ^ 32
      → (net' : Net h) × (receive_all h (suc (suc n)) window (with_one h i packet l.now s)
          ≡ done (received_one h (i + 1) net' s))
        × IsIdle h file l (i + 1) net'
  unfolding receive_all poll has_data or_fault ◌then◌
  receive_all_lossless n i s packet pending small open_at no_wrap =
      let asked : Net h = record s.net { world = (Host.has_data h s.net.world).1 } in
      let (net1, received, idle) =
        receive_ack_lossless i (record s { net = asked }) packet
          (l.asked_pending i s.net.world pending.0, pending.1) small open_at no_wrap in
      let s1 : SelectiveRepeatServer h = received_one h (i + 1) net1 s in
      (
        record net1 { world = (Host.has_data h net1.world).1 },
        repeat_round (poll h) take_one (suc n) (with_one h i packet l.now s) s1
              (l.data_pending i s.net.world pending.0) (rw received refl)
            ∙ repeat_stop (poll h) take_one n s1 (l.data_idle net1.world idle.0),
        (l.asked_idle net1.world idle.0, idle.1),
      )
    where
      take_one : SelectiveRepeatServer h → Run (SelectiveRepeatServer h) (SelectiveRepeatServer h)
      take_one s' = or_fault (receive_ack h window s') then λ (ok, s''). done s''

  pub after_sending_lossless :
      (n : ℕ) (s : SelectiveRepeatServer h) (packet : Packet)
      → IsPending h file l s.seq_no s.net
      → s.seq_no + 1 < 2 ^ 32
      → 0 < window
      → s.seq_no + window < 2 ^ 32
      → (net' : Net h) × (after_sending h (suc (suc n)) window packet (with_none h s.seq_no s)
          ≡ done (received_one h (s.seq_no + 1) net' (record s { seq_no = u32 (s.seq_no + 1) })))
        × IsIdle h file l (s.seq_no + 1) net'
  unfolding after_sending time_now insert lookup ◌then◌ timers_or_return update_timers
      update_timers_from or_fault
  after_sending_lossless n s packet pending small open_at no_wrap =
      let net : Net h = record s.net { world = (Host.gettimeofday h s.net.world).1 } in
      let (net', received, idle) =
        receive_all_lossless n s.seq_no (record s { seq_no = u32 (s.seq_no + 1); net = net }) packet
          (l.clock_pending s.seq_no s.net.world pending.0, pending.1) small open_at no_wrap in
      (net', rw (l.clock s.net.world, received) refl, idle)
