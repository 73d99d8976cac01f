-- ===== src/SelectiveRepeatCc/Client/Draining.antt =====
-- SelectiveRepeatCCClient.cpp: `handleWindow` and the map of the packets that wait.
use reliable_data_transfer.Base.{
  ℕ, zero, suc, ◌+◌, ◌≤◌, ◌<◌, ◌^◌, ◌%◌, List, none, some, inl, inr, ◌≡◌, refl, sym, ◌∙◌, subst,
  arith, length, lt→ltb, Option-cases, Bool-cases, some_inj, u32,
}
use reliable_data_transfer.Base.Maps.{lookup, has, erase, length-erase-lt, lookup_empty}
use reliable_data_transfer.Packet.{PacketCoreData}
use reliable_data_transfer.DataManagers.{DataSink, feed_next_data}
use reliable_data_transfer.SelectiveRepeat.Client as Plain
use reliable_data_transfer.SelectiveRepeat.Client.{
  SelectiveRepeatClient, new_client, acknowledge, min_pack, running,
}
use reliable_data_transfer.SelectiveRepeatCc.Client.{handle_window, store_within}
use reliable_data_transfer.SelectiveRepeatCc.Client.Room.{
  Distinct, Within, Distinct-erase, Distinct-insert, Within-erase, Within-insert, room,
}

-- What the packets that wait have in common, also within `handleWindow`.
pub record Waiting (window base : ℕ) (m : List (ℕ × PacketCoreData)) : Type 0 where
  pub distinct : Distinct m
  pub within : Within base window m

-- And behind it: the packet that comes next does not wait.
pub record HasRoom (window base : ℕ) (m : List (ℕ × PacketCoreData)) : Type 0 where
  pub waiting : Waiting window base m
  pub next : lookup base m ≡ none

abbrev pub Waits : ℕ → SelectiveRepeatClient → Type 0
Waits window c = Waiting window c.base_ack_no c.data_received

abbrev pub Drained : ℕ → SelectiveRepeatClient → Type 0
Drained window c = HasRoom window c.base_ack_no c.data_received

-- The front entry goes to the sink.
abbrev advance : SelectiveRepeatClient → DataSink → SelectiveRepeatClient
advance c sink = record c {
  sink = sink;
  base_ack_no = u32 (c.base_ack_no + 1);
  data_received = erase c.base_ack_no c.data_received;
}

pub handle_window-same :
    (fuel : ℕ) (c : SelectiveRepeatClient) → handle_window fuel c ≡ Plain.handle_window fuel c
unfolding handle_window Plain.handle_window
handle_window-same zero c = refl
handle_window-same (suc fuel) c = elim (Option-cases (lookup c.base_ack_no c.data_received)) [
  | inl nothing ↦ rw (nothing, handle_window, Plain.handle_window) refl
  | inr (core, found) ↦ elim (Option-cases (feed_next_data c.sink core c.base_ack_no)) [
    | inl broken ↦ rw (found, handle_window, Plain.handle_window) (rw broken refl)
    | inr (sink, fed) ↦
        rw (found, handle_window, Plain.handle_window)
          (rw fed (handle_window-same fuel (advance c sink)))
  ]
]

advance-Waits :
    (window : ℕ) (c : SelectiveRepeatClient) (core : PacketCoreData) (sink : DataSink)
    → lookup c.base_ack_no c.data_received ≡ some core
    → Waits window c
    → Waits window (advance c sink)
advance-Waits window c core sink found w =
    let no_wrap : (c.base_ack_no + 1) % 2 ^ 32 ≡ c.base_ack_no + 1 =
      omega (arith, (w.within c.base_ack_no core found).2) in
    record {
      distinct = Distinct-erase c.base_ack_no c.data_received w.distinct;
      within = rw no_wrap (Within-erase c.base_ack_no window c.data_received w.within);
    }

pub handle_window-Drained :
    (window fuel : ℕ) (c c' : SelectiveRepeatClient)
    → length c.data_received ≤ fuel
    → Waits window c
    → Plain.handle_window fuel c ≡ some c'
    → Drained window c'
unfolding Plain.handle_window
handle_window-Drained window zero c c' small w e =
    subst (Drained window) (some_inj e)
      (record { waiting = w; next = lookup_empty c.base_ack_no c.data_received small })
handle_window-Drained window (suc fuel) c c' small w e =
    elim (Option-cases (lookup c.base_ack_no c.data_received)) [
      | inl nothing ↦
          let stop : Plain.handle_window (suc fuel) c ≡ some c =
            rw (nothing, Plain.handle_window) refl in
          subst (Drained window) (some_inj (sym stop ∙ e)) (record { waiting = w; next = nothing })
      | inr (core, found) ↦ elim (Option-cases (feed_next_data c.sink core c.base_ack_no)) [
        | inl broken ↦
            let stop : Plain.handle_window (suc fuel) c ≡ none =
              rw (found, Plain.handle_window) (rw broken refl) in
            absurd (cc)
        | inr (sink, fed) ↦
            let step : Plain.handle_window (suc fuel) c
                ≡ Plain.handle_window fuel (advance c sink) =
              rw (found, Plain.handle_window) (rw fed refl) in
            handle_window-Drained window fuel (advance c sink) c'
              (omega (arith, length-erase-lt c.base_ack_no core c.data_received found))
              (advance-Waits window c core sink found w) (sym step ∙ e)
      ]
    ]

-- The packet is one that the window takes.
abbrev pub IsTaken : ℕ → SelectiveRepeatClient → ℕ → Type 0
IsTaken window c seqno = (c.base_ack_no ≤ seqno) × (seqno < (c.base_ack_no + window) % 2 ^ 32)

pub store-same :
    (window : ℕ) (c : SelectiveRepeatClient) (seqno : ℕ) (core : PacketCoreData)
    → IsTaken window c seqno
    → Drained window c
    → store_within window c seqno core ≡ Plain.store c seqno core
unfolding store_within Plain.store
store-same window c seqno core taken d =
    let fits : length c.data_received < window =
      room c.base_ack_no window c.data_received (omega arith) d.next d.waiting.distinct
        d.waiting.within in
    rw (lt→ltb (length c.data_received) window fits)
      (elim (Bool-cases (has (lookup seqno c.data_received))) [
        | inl e ↦ rw e refl
        | inr e ↦ rw e refl
      ])

pub store-Waits :
    (window : ℕ) (c : SelectiveRepeatClient) (seqno : ℕ) (core : PacketCoreData)
    → IsTaken window c seqno
    → Waits window c
    → Waits window (Plain.store c seqno core)
unfolding Plain.store
store-Waits window c seqno core taken w = elim (Option-cases (lookup seqno c.data_received)) [
  | inl free ↦ rw free (record {
    distinct = Distinct-insert seqno core c.data_received free w.distinct;
    within =
        Within-insert c.base_ack_no window seqno core c.data_received free (omega arith)
          (omega arith) (omega arith) w.within;
  })
  | inr (old, e) ↦ rw e w
]
