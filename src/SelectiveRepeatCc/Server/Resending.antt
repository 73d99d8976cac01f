-- ===== src/SelectiveRepeatCc/Server/Resending.antt =====
-- selectiveRepeatCCServer.cpp: what `updateTimers` leaves as it is.
use reliable_data_transfer.Base.{
  ℕ, Bool, true, false, List, [], ◌∷◌, some, refl, inl, inr, Bool-cases, Option-cases,
}
use reliable_data_transfer.Base.Maps.{lookup}
use reliable_data_transfer.Socket.{Host, timeout, update_remaining_timeout_nc}
use reliable_data_transfer.Run.{Run, or_fault, Ensures}
use reliable_data_transfer.SelectiveRepeat.Server.{SelectiveRepeatServer, resend}
use reliable_data_transfer.SelectiveRepeat.Server.Resending.{IsOut, resend-IsOut}
use reliable_data_transfer.SelectiveRepeatCc.Congestion.{Congestion, window_decrease}
use reliable_data_transfer.SelectiveRepeatCc.Server.{
  SelectiveRepeatCcServer, decreased, update_timers_from,
}

-- A window that timeouts, and nothing else, make of another.
pub data IsLowered (start : Congestion) : Congestion → Type 0 where
  as_was : IsLowered start start
  by_timeout : (c : Congestion) → IsLowered start c → IsLowered start (window_decrease true c)

module _ (h : Host) (s : SelectiveRepeatCcServer h) where
  -- What is out stays, and the window goes through timeouts only.
  pub record IsCcOut (s' : SelectiveRepeatCcServer h) : Type 0 where
    pub out : IsOut h s.core s'.core
    pub cong : IsLowered s.cong s'.cong

  abbrev AllOut : Run (SelectiveRepeatCcServer h) (Bool × SelectiveRepeatCcServer h) → Type 0
  AllOut = Ensures {S = SelectiveRepeatCcServer h} (λ s'. Unit) (λ r. IsCcOut r.1)

  update_timers_from-IsCcOut :
      (order : List ℕ) (s1 : SelectiveRepeatCcServer h)
      → IsCcOut s1
      → AllOut (or_fault (update_timers_from h order s1))
  unfolding update_timers_from or_fault
  update_timers_from-IsCcOut [] s1 k = k
  update_timers_from-IsCcOut (i ∷ order) s1 k =
      elim (Option-cases (lookup i s1.core.seqnums_sent)) [
        | inl missing ↦ rw (missing, update_timers_from) tt
        | inr (send_time, there) ↦
            let t = update_remaining_timeout_nc h timeout send_time s1.core.net in
            let core : SelectiveRepeatServer h = record s1.core { net = t.net } in
            let s2 : SelectiveRepeatCcServer h = record s1 { core = core } in
            let out : IsOut h s.core core = record {
              base = k.out.base;
              next = k.out.next;
              packets = k.out.packets;
              acks = k.out.acks;
            } in
            let lower : IsLowered s.cong (window_decrease true s1.cong) =
              by_timeout s1.cong k.cong in
            elim (Bool-cases t.over) [
              | inr in_time ↦
                  rw (there, in_time, update_timers_from) (record { out = out; cong = k.cong })
              | inl over ↦ elim (Option-cases (lookup i s1.core.data_sent)) [
                | inl missing ↦
                    rw (there, over, missing, update_timers_from)
                      (record { out = out; cong = lower })
                | inr (packet, held) ↦
                    rw (there, over, held, update_timers_from)
                      (further (λ s k. update_timers_from-IsCcOut order s k)
                        (resend h i packet core).0
                        (record (decreased h s2) { core = (resend h i packet core).1 })
                        (record { out = resend-IsOut h s.core i packet core out; cong = lower }))
              ]
            ]
      ]
    where
      further :
          ((s : SelectiveRepeatCcServer h)
            → IsCcOut s
            → AllOut (or_fault (update_timers_from h order s)))
          → (sent : Bool) (s : SelectiveRepeatCcServer h) → IsCcOut s
          → AllOut (
              or_fault
                (elim sent [ true ↦ update_timers_from h order s | false ↦ some (false, s) ]))
      further later true s k = later s k
      further later false s k = k

  pub update_timers-IsCcOut : AllOut (or_fault (update_timers_from h s.core.send_order s))
  update_timers-IsCcOut = update_timers_from-IsCcOut s.core.send_order s (record {
    out = record { base = refl; next = refl; packets = refl; acks = refl };
    cong = as_was;
  })
