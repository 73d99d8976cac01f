-- ===== src/SelectiveRepeat/Client/Naming.antt =====
-- SelectiveRepeatClient.cpp: the name of the file that the worker writes to.
use reliable_data_transfer.Base.{
  ℕ, zero, suc, ◌+◌, length, ltb, leb, Option-cases, inl, inr, List, Option, none, some, ◌≡◌, refl,
  ◌∙◌, subst, if-both, ◌&&◌, ◌||◌, ◌==◌, not, u32,
}
use reliable_data_transfer.Packet.{
  Packet, PacketCoreData, extract_pure_data, verify_checksum, pck_header_size,
}
use reliable_data_transfer.Base.Maps.{lookup, has, erase}
use reliable_data_transfer.DataManagers.{feed_next_data}
use reliable_data_transfer.DataManagers.Naming.{file_name, Always, feed_next_data-name}
use reliable_data_transfer.Socket.{Recv, receive_packet}
use reliable_data_transfer.Reception.{receive_while_keeps}
use reliable_data_transfer.Run.{or_fault, bind-Ensures, or_fault-Ensures}
use reliable_data_transfer.SelectiveRepeat.Client.{
  SelectiveRepeatClient, accept, handle, receive_one, recv_message, running, acknowledge, store,
  handle_window, min_pack,
}

-- The worker's file has the same name as that of the other.
abbrev SameFile : SelectiveRepeatClient → SelectiveRepeatClient → Type 0
SameFile c c' = file_name c'.sink ≡ file_name c.sink

-- From a worker whose file has the same name.
Always-same :
    (c c1 : SelectiveRepeatClient) (o : Option SelectiveRepeatClient)
    → SameFile c c1
    → Always (SameFile c1) o
    → Always (SameFile c) o
unfolding or_fault
Always-same c c1 none same a = tt
Always-same c c1 (some c') same a = a ∙ same

store-SameFile :
    (c : SelectiveRepeatClient) (i : ℕ) (core : PacketCoreData)
    → SameFile c (acknowledge (store c i core) i)
unfolding store acknowledge
store-SameFile c i core =
    if-both (λ (c' : SelectiveRepeatClient). file_name c'.sink ≡ file_name c.sink)
      (not (has (lookup i c.data_received))) _ _ (λ _. refl) (λ _. refl)

handle_window-SameFile :
    (fuel : ℕ) (c : SelectiveRepeatClient) → Always (SameFile c) (handle_window fuel c)
unfolding handle_window or_fault
handle_window-SameFile zero c = refl
handle_window-SameFile (suc fuel) c = elim (Option-cases (lookup c.base_ack_no c.data_received)) [
  | inl missing ↦ rw (missing, handle_window) refl
  | inr (core, e) ↦
      rw (e, handle_window)
        (bind-Ensures {S = Unit} (λ u. Unit) (λ sink. file_name sink ≡ file_name c.sink)
          (SameFile c) (feed_next_data c.sink core c.base_ack_no) _
          (feed_next_data-name c.sink core c.base_ack_no)
          (λ sink same.
            let next : SelectiveRepeatClient = record c {
              sink = sink;
              base_ack_no = u32 (c.base_ack_no + 1);
              data_received = erase c.base_ack_no c.data_received;
            } in
            Always-same c next (handle_window fuel next) same (handle_window-SameFile fuel next)))
]

accept-SameFile :
    (c : SelectiveRepeatClient) (packet : Packet) → Always (SameFile c) (accept c packet)
unfolding accept or_fault acknowledge
accept-SameFile c packet =
    if-both (Always (SameFile c)) (not (packet.len == pck_header_size)) _ _
      (λ _.
        bind-Ensures {S = Unit} (λ u. Unit) (λ core. Unit) (SameFile c) (extract_pure_data packet) _
          (or_fault-Ensures {S = Unit} (λ u. Unit) (λ core. Unit) (extract_pure_data packet)
            (λ core e. tt))
          (λ core u.
            let next : SelectiveRepeatClient =
              acknowledge (store c packet.seqno core) packet.seqno in
            Always-same c next (handle_window (length next.data_received) next)
              (store-SameFile c packet.seqno core)
              (handle_window-SameFile (length next.data_received) next)))
      (λ _. refl)

handle-SameFile :
    (window : ℕ) (c : SelectiveRepeatClient) (packet : Packet)
    → Always (SameFile c) (handle window c packet)
unfolding handle or_fault acknowledge
handle-SameFile window c packet =
    if-both (Always (SameFile c)) (c.error || c.time_out) _ _ (λ _. refl)
      (λ _.
        if-both (Always (SameFile c)) (verify_checksum packet) _ _
          (λ _.
            if-both (Always (SameFile c))
              (ltb packet.seqno c.base_ack_no && leb (min_pack c.base_ack_no window) packet.seqno) _
              _ (λ _. refl)
              (λ _.
                if-both (Always (SameFile c))
                  (not (ltb packet.seqno c.base_ack_no)
                    && not (leb (u32 (c.base_ack_no + window)) packet.seqno))
                  _ _ (λ _. accept-SameFile c packet) (λ _. refl)))
          (λ _. refl))

receive_one-SameFile :
    (window : ℕ) (c c' : SelectiveRepeatClient) (r : Recv)
    → receive_one window c r ≡ some c'
    → SameFile c c'
unfolding receive_one or_fault
receive_one-SameFile window c c' r e = subst (Always (SameFile c)) e (
    bind-Ensures {S = Unit} (λ u. Unit) (λ reception. Unit) (SameFile c) (receive_packet r) _
      (or_fault-Ensures {S = Unit} (λ u. Unit) (λ reception. Unit) (receive_packet r)
        (λ reception e. tt))
      (λ reception u.
        handle-SameFile window (record c { error = reception.error; time_out = reception.time_out })
          reception.packet))

pub recv_message-SameFile :
    (window : ℕ) (c c' : SelectiveRepeatClient) (rs : List Recv)
    → recv_message window c rs ≡ some c'
    → file_name c'.sink ≡ file_name c.sink
unfolding recv_message
recv_message-SameFile window =
    receive_while_keeps running (receive_one window) (λ c. file_name c.sink)
      (receive_one-SameFile window)
