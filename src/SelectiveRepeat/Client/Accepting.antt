-- ===== src/SelectiveRepeat/Client/Accepting.antt =====
-- SelectiveRepeatClient.cpp: a packet of the transfer that is taken.
use native.Mathlib.Decide.{dec_lt}
use reliable_data_transfer.Base.{
  ℕ, ◌+◌, ◌*◌, ◌≤◌, ◌<◌, true, false, List, none, some, ◌⊎◌, inl, inr, ap, ◌∙◌, sym, subst, ◌≡◌,
  refl, arith, length, eq→==, ne→==, ◌==◌,
}
use reliable_data_transfer.Base.Maps.{lookup}
use reliable_data_transfer.DataManagers.Feeding.{segment, length-chunk}
use reliable_data_transfer.Socket.Genuine.{
  Fits, IsSent, sent_packet, IsSentPacket, sent_packet-IsSentPacket,
}
use reliable_data_transfer.SelectiveRepeat.Client.{
  SelectiveRepeatClient, handle_window, store, acknowledge, accept, running,
}
use reliable_data_transfer.SelectiveRepeat.Client.Window.{
  Collects, handle_window-Forwards, store-Collects, store_keeps,
}

-- Between two arrivals: the file holds the segments below the base, no entry waits for its turn,
-- and a last number that is known is that of the empty packet.
pub record Delivers (file : List ℕ) (c : SelectiveRepeatClient) : Type 0 where
  pub collects : Collects file c
  pub waits : lookup c.base_ack_no c.data_received ≡ none
  pub over : c.end ≡ true → length file ≤ 512 * c.last_ack_no

module _ (file : List ℕ) (fits : Fits file) where
  abbrev kept : SelectiveRepeatClient → ℕ → SelectiveRepeatClient
  kept c i = acknowledge (store c i (segment file i)) i

  accept_data :
      (c : SelectiveRepeatClient) (i : ℕ)
      → 512 * i < length file
      → accept c (sent_packet file i) ≡ handle_window (length (kept c i).data_received) (kept c i)
  unfolding accept
  accept_data c i more =
      let pack = sent_packet-IsSentPacket file i in
      let not_empty : ((sent_packet file i).len == 8) ≡ false =
        ne→== _ 8 (omega (arith, pack.long, length-chunk file i)) in
      rw (not_empty, pack.carries) (rw pack.number refl)

  -- A packet of the transfer that is not before the window.
  pub accept-Delivers :
      (c : SelectiveRepeatClient) (i : ℕ)
      → Delivers file c
      → IsSent file i
      → (c' : SelectiveRepeatClient) × (accept c (sent_packet file i) ≡ some c')
        × Delivers file c'
        × (c.base_ack_no ≤ c'.base_ack_no)
        × (i ≡ c.base_ack_no → (c.base_ack_no + 1 ≤ c'.base_ack_no) ⊎ (running c' ≡ false))
  unfolding accept acknowledge running
  accept-Delivers c i d sent = elim (dec_lt (512 * i) (length file)) [
    | yes more ↦ with_data more
    | no done ↦ at_end (omega arith)
  ]
    where
      pack : IsSentPacket file i (sent_packet file i)
      pack = sent_packet-IsSentPacket file i

      with_data :
          512 * i < length file
          → (c' : SelectiveRepeatClient) × (accept c (sent_packet file i) ≡ some c')
            × Delivers file c'
            × (c.base_ack_no ≤ c'.base_ack_no)
            × (i ≡ c.base_ack_no → (c.base_ack_no + 1 ≤ c'.base_ack_no) ⊎ (running c' ≡ false))
      with_data more =
          let (col, stored) = store-Collects file fits c i d.collects more in
          let same = store_keeps file fits c i (segment file i) in
          let (c', e, f) =
            handle_window-Forwards file fits (length (kept c i).data_received) (kept c i)
              (omega arith)
              (record { holds = col.holds; range = col.range; buffers = col.buffers }) in
          (
            c',
            accept_data c i more ∙ e,
            record {
              collects = f.collects;
              waits = f.waits;
              over = λ ended. omega (
                arith,
                ap (λ n. 512 * n) (f.same_last ∙ same.2),
                d.over (sym (f.same_end ∙ same.1) ∙ ended),
              );
            },
            omega (arith, f.ahead, same),
            λ turn. inl (
                omega (
                  arith,
                  same,
                  f.moves stored.0 (
                      subst
                        (λ n. lookup n (store c i (segment file i)).data_received ≡ some stored.0)
                        (turn ∙ sym same.0) stored.1),
                )),
          )

      at_end :
          length file ≤ 512 * i
          → (c' : SelectiveRepeatClient) × (accept c (sent_packet file i) ≡ some c')
            × Delivers file c'
            × (c.base_ack_no ≤ c'.base_ack_no)
            × (i ≡ c.base_ack_no → (c.base_ack_no + 1 ≤ c'.base_ack_no) ⊎ (running c' ≡ false))
      at_end done =
          let empty : ((sent_packet file i).len == 8) ≡ true =
            eq→== _ 8 (omega (arith, pack.long, length-chunk file i)) in
          (
            record (acknowledge c (sent_packet file i).seqno) {
              end = true;
              last_ack_no = (sent_packet file i).seqno;
            },
            rw empty refl,
            record {
              collects = record {
                holds = d.collects.holds;
                range = d.collects.range;
                buffers = d.collects.buffers;
              };
              waits = d.waits;
              over = λ _. omega (arith, pack.number);
            },
            omega arith,
            λ turn. inr (ground (arith, pack.number)),
          )
