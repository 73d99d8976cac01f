-- ===== src/SelectiveRepeat/Server/Resending.antt =====
-- SelectiveRepeatServer.cpp: what `updateTimers` leaves as it is.
use reliable_data_transfer.Base.{
  Bool-cases, Option-cases, ℕ, Bool, true, false, List, [], ◌∷◌, some, ◌≡◌, refl, inl, inr, if-both,
}
use reliable_data_transfer.Base.Maps.{lookup}
use reliable_data_transfer.Packet.{Packet}
use reliable_data_transfer.Socket.{Host, timeout, transmit, update_remaining_timeout_nc}
use reliable_data_transfer.Run.{Run, or_fault, Ensures}
use reliable_data_transfer.SelectiveRepeat.Server.{
  SelectiveRepeatServer, resend, update_timers_from, update_timers,
}

module _ (h : Host) (s : SelectiveRepeatServer h) where
  -- What is out stays, as does the window. The order and the times are left open.
  pub record IsOut (s' : SelectiveRepeatServer h) : Type 0 where
    pub base : s'.base_seq_no ≡ s.base_seq_no
    pub next : s'.seq_no ≡ s.seq_no
    pub packets : s'.data_sent ≡ s.data_sent
    pub acks : s'.acks ≡ s.acks

  abbrev AllOut : Run (SelectiveRepeatServer h) (Bool × SelectiveRepeatServer h) → Type 0
  AllOut = Ensures {S = SelectiveRepeatServer h} (λ s'. Unit) (λ r. IsOut r.1)

  pub resend-IsOut :
      (i : ℕ) (packet : Packet) (s1 : SelectiveRepeatServer h)
      → IsOut s1
      → IsOut (resend h i packet s1).1
  unfolding resend
  resend-IsOut i packet s1 k =
      if-both (λ (r : Bool × SelectiveRepeatServer h). IsOut r.1) (transmit h s1.net packet).0 _ _
        (λ _. record { base = k.base; next = k.next; packets = k.packets; acks = k.acks })
        (λ _. record { base = k.base; next = k.next; packets = k.packets; acks = k.acks })

  update_timers_from-IsOut :
      (order : List ℕ) (s1 : SelectiveRepeatServer h)
      → IsOut s1
      → AllOut (or_fault (update_timers_from h order s1))
  unfolding update_timers_from or_fault
  update_timers_from-IsOut [] s1 k = k
  update_timers_from-IsOut (i ∷ order) s1 k = elim (Option-cases (lookup i s1.seqnums_sent)) [
    | inl missing ↦ rw (missing, update_timers_from) tt
    | inr (send_time, there) ↦
        let t = update_remaining_timeout_nc h timeout send_time s1.net in
        let s2 : SelectiveRepeatServer h = record s1 { net = t.net } in
        let k2 : IsOut s2 = record {
          base = k.base;
          next = k.next;
          packets = k.packets;
          acks = k.acks;
        } in
        elim (Bool-cases t.over) [
          | inr in_time ↦ rw (there, in_time, update_timers_from) k2
          | inl over ↦ elim (Option-cases (lookup i s1.data_sent)) [
            | inl missing ↦ rw (there, over, missing, update_timers_from) tt
            | inr (packet, held) ↦
                rw (there, over, held, update_timers_from)
                  (further (λ s k. update_timers_from-IsOut order s k) (resend h i packet s2)
                    (resend-IsOut i packet s2 k2))
          ]
        ]
  ]
    where
      further :
          ((s : SelectiveRepeatServer h)
            → IsOut s
            → AllOut (or_fault (update_timers_from h order s)))
          → (r : Bool × SelectiveRepeatServer h) → IsOut r.1
          → AllOut (
              or_fault
                (elim r.0 [ true ↦ update_timers_from h order r.1 | false ↦ some (false, r.1) ]))
      further later (true, s) k = later s k
      further later (false, s) k = k

  pub update_timers-IsOut : AllOut (or_fault (update_timers h s))
  unfolding update_timers
  update_timers-IsOut =
      update_timers_from-IsOut s.send_order s
        (record { base = refl; next = refl; packets = refl; acks = refl })
