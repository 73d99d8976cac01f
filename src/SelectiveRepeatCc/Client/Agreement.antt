-- ===== src/SelectiveRepeatCc/Client/Agreement.antt =====
-- SelectiveRepeatCCClient.cpp: the bound on the packets that wait never turns one away.
use reliable_data_transfer.Base.{
  ℕ, ◌+◌, true, List, none, some, inl, inr, ◌≡◌, refl, sym, ◌∙◌, subst, arith, length, Option-cases,
  Bool-cases, some_inj, u32, ltb, leb, ◌==◌, not, ◌&&◌, ◌||◌,
}
use reliable_data_transfer.Base.Maps.{lookup}
use reliable_data_transfer.Packet.{Packet, extract_pure_data, verify_checksum, pck_header_size}
use reliable_data_transfer.DataManagers.{DataSink}
use reliable_data_transfer.Socket.{Recv, receive_packet}
use reliable_data_transfer.SelectiveRepeat.Client as Plain
use reliable_data_transfer.SelectiveRepeat.Client.{
  SelectiveRepeatClient, new_client, acknowledge, min_pack, running,
}
use reliable_data_transfer.SelectiveRepeatCc.Client.{accept, handle, receive_one, recv_message}
use reliable_data_transfer.SelectiveRepeatCc.Client.Draining.{
  Drained, IsTaken, handle_window-same, handle_window-Drained, store-same, store-Waits,
}
use reliable_data_transfer.Reception.{receive_while_same}

accept-same :
    (window : ℕ) (c : SelectiveRepeatClient) (packet : Packet)
    → IsTaken window c packet.seqno
    → Drained window c
    → accept window c packet ≡ Plain.accept c packet
unfolding accept Plain.accept
accept-same window c packet taken d = elim (Option-cases (extract_pure_data packet)) [
  | inl e ↦ rw e refl
  | inr (core, e) ↦
      let kept = acknowledge (Plain.store c packet.seqno core) packet.seqno in
      rw (e, store-same window c packet.seqno core taken d)
        (rw (handle_window-same (length kept.data_received) kept) refl)
]

accept-Drained :
    (window : ℕ) (c c' : SelectiveRepeatClient) (packet : Packet)
    → IsTaken window c packet.seqno
    → Drained window c
    → Plain.accept c packet ≡ some c'
    → Drained window c'
unfolding Plain.accept acknowledge
accept-Drained window c c' packet taken d e = elim (Bool-cases (packet.len == pck_header_size)) [
  | inl over ↦
      let stop : Plain.accept c packet
          ≡ some (record (acknowledge c packet.seqno) { end = true; last_ack_no = packet.seqno }) =
        rw over refl in
      subst (Drained window) (some_inj (sym stop ∙ e)) d
  | inr more ↦ elim (Option-cases (extract_pure_data packet)) [
    | inl broken ↦ let stop : Plain.accept c packet ≡ none = rw (more, broken) refl in absurd (cc)
    | inr (core, found) ↦
        let kept = acknowledge (Plain.store c packet.seqno core) packet.seqno in
        let step : Plain.accept c packet ≡ Plain.handle_window (length kept.data_received) kept =
          rw (more, found) refl in
        handle_window-Drained window (length kept.data_received) kept c' (omega arith)
          (store-Waits window c packet.seqno core taken d.waiting) (sym step ∙ e)
  ]
]

-- What the two programs do with a packet: both ignore it, both acknowledge it again, or both take it.
data Handled (window : ℕ) (c : SelectiveRepeatClient) (packet : Packet) : Type 0 where
  same :
      (c' : SelectiveRepeatClient)
      → Drained window c'
      → handle window c packet ≡ some c'
      → Plain.handle window c packet ≡ some c'
      → Handled window c packet
  taken :
      IsTaken window c packet.seqno
      → handle window c packet ≡ accept window c packet
      → Plain.handle window c packet ≡ Plain.accept c packet
      → Handled window c packet

IsTaken-tests :
    (window : ℕ) (c : SelectiveRepeatClient) (seqno : ℕ)
    → (not (ltb seqno c.base_ack_no) && not (leb (u32 (c.base_ack_no + window)) seqno)) ≡ true
    → IsTaken window c seqno
IsTaken-tests window c seqno e = ground arith

handle-Handled :
    (window : ℕ) (c : SelectiveRepeatClient) (packet : Packet)
    → Drained window c
    → Handled window c packet
unfolding handle Plain.handle acknowledge
handle-Handled window c packet d = elim (Bool-cases (c.error || c.time_out)) [
  | inl bad ↦ same c d (rw bad refl) (rw bad refl)
  | inr good ↦ elim (Bool-cases (verify_checksum packet)) [
    | inr broken ↦ same c d (rw (good, broken) refl) (rw (good, broken) refl)
    | inl whole ↦
        elim (Bool-cases
          (ltb packet.seqno c.base_ack_no && leb (min_pack c.base_ack_no window) packet.seqno)) [
            | inl again ↦
                same (acknowledge c packet.seqno) d (rw (good, whole, again) refl)
                  (rw (good, whole, again) refl)
            | inr new ↦
                elim (Bool-cases (
                  not (ltb packet.seqno c.base_ack_no)
                  && not (leb (u32 (c.base_ack_no + window)) packet.seqno))) [
                    | inl inside ↦
                        taken (IsTaken-tests window c packet.seqno inside)
                          (rw (good, whole, new, inside) refl) (rw (good, whole, new, inside) refl)
                    | inr beyond ↦
                        same c d (rw (good, whole, new, beyond) refl)
                          (rw (good, whole, new, beyond) refl)
                  ]
          ]
  ]
]

handle-agrees :
    (window : ℕ) (c : SelectiveRepeatClient) (packet : Packet)
    → Drained window c
    → (handle window c packet ≡ Plain.handle window c packet)
      × ((c' : SelectiveRepeatClient) → Plain.handle window c packet ≡ some c' → Drained window c')
handle-agrees window c packet d = elim (handle-Handled window c packet d) [
  | same c1 d1 e e' ↦ (e ∙ sym e', λ c' e2. subst (Drained window) (some_inj (sym e' ∙ e2)) d1)
  | taken t e e' ↦ (
    e ∙ accept-same window c packet t d ∙ sym e',
    λ c' e2. accept-Drained window c c' packet t d (sym e' ∙ e2),
  )
]

receive_one-agrees :
    (window : ℕ) (c : SelectiveRepeatClient) (r : Recv)
    → Drained window c
    → (receive_one window c r ≡ Plain.receive_one window c r)
      × ((c' : SelectiveRepeatClient) → Plain.receive_one window c r ≡ some c' → Drained window c')
unfolding receive_one Plain.receive_one
receive_one-agrees window c r d = elim (Option-cases (receive_packet r)) [
  | inl fault ↦ rw fault (refl, λ c' e. absurd (cc))
  | inr (reception, e) ↦ rw e (
      handle-agrees window (record c { error = reception.error; time_out = reception.time_out })
        reception.packet d)
]

-- Whatever arrives, the client with congestion control does the same as the one without it: the
-- bound on the number of packets that wait turns none away, for every window.
pub congestion_client_agrees :
    (window : ℕ) (sink : DataSink) (rs : List Recv)
    → recv_message window (new_client sink) rs ≡ Plain.recv_message window (new_client sink) rs
unfolding recv_message Plain.recv_message lookup new_client
congestion_client_agrees window sink rs =
    receive_while_same running (receive_one window) (Plain.receive_one window) (Drained window)
      (receive_one-agrees window) (new_client sink) rs
      (record { waiting = record { distinct = tt; within = λ k v e. absurd (cc) }; next = refl })
