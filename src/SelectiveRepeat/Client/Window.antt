-- ===== src/SelectiveRepeat/Client/Window.antt =====
-- SelectiveRepeatClient.cpp: what `handleWindow` does with packets of a transfer.
use reliable_data_transfer.Base.{
  ℕ, zero, suc, ◌+◌, ◌*◌, ◌≤◌, ◌<◌, ◌^◌, ◌%◌, List, none, some, inl, inr, ◌∙◌, ◌≡◌, refl, arith,
  length, take, Option-cases,
}
use reliable_data_transfer.Base.Maps.{
  lookup, insert, erase, lookup-insert, lookup-erase, length-erase-lt, lookup_empty,
}
use reliable_data_transfer.Packet.{PacketCoreData}
use reliable_data_transfer.DataManagers.{DataSink, feed_next_data}
use reliable_data_transfer.DataManagers.Feeding.{segment}
use reliable_data_transfer.DataManagers.Sinking.{Holds, feed-segment}
use reliable_data_transfer.Socket.Genuine.{Fits, IsSent}
use reliable_data_transfer.SelectiveRepeat.Client.{SelectiveRepeatClient, handle_window, store}

-- Each entry of the map is a segment with data under its number.
abbrev pub Buffers : List ℕ → List (ℕ × PacketCoreData) → Type 0
Buffers file m =
    (k : ℕ) (core : PacketCoreData)
    → lookup k m ≡ some core
    → (core ≡ segment file k) × (512 * k < length file)

pub record Collects (file : List ℕ) (c : SelectiveRepeatClient) : Type 0 where
  pub holds : Holds (take (512 * c.base_ack_no) file) c.sink
  pub range : IsSent file c.base_ack_no
  pub buffers : Buffers file c.data_received

-- The worker after `handleWindow`: no entry waits for its turn.
pub record Forwards (file : List ℕ) (c c' : SelectiveRepeatClient) : Type 0 where
  pub collects : Collects file c'
  pub ahead : c.base_ack_no ≤ c'.base_ack_no
  pub waits : lookup c'.base_ack_no c'.data_received ≡ none
  pub moves :
      (core : PacketCoreData)
      → lookup c.base_ack_no c.data_received ≡ some core
      → c.base_ack_no + 1 ≤ c'.base_ack_no
  pub same_end : c'.end ≡ c.end
  pub same_last : c'.last_ack_no ≡ c.last_ack_no

module _ (file : List ℕ) (fits : Fits file) where
  -- Nothing waits: the worker stays as it is.
  stays :
      (c : SelectiveRepeatClient)
      → Collects file c
      → lookup c.base_ack_no c.data_received ≡ none
      → Forwards file c c
  stays c col nothing = record {
    collects = col;
    ahead = omega arith;
    waits = nothing;
    moves = λ core e. absurd (cc);
    same_end = refl;
    same_last = refl;
  }

  Buffers-erase :
      (k : ℕ) (m : List (ℕ × PacketCoreData)) → Buffers file m → Buffers file (erase k m)
  Buffers-erase k m b j core e = b j core (ground (arith, lookup-erase k j m))

  -- One segment goes to the file and the window moves on.
  abbrev forward : SelectiveRepeatClient → DataSink → SelectiveRepeatClient
  forward c sink = record c {
    sink = sink;
    base_ack_no = c.base_ack_no + 1;
    data_received = erase c.base_ack_no c.data_received;
  }

  handle_window_step :
      (fuel : ℕ) (c : SelectiveRepeatClient) (core : PacketCoreData) (sink : DataSink)
      → IsSent file (c.base_ack_no + 1)
      → lookup c.base_ack_no c.data_received ≡ some core
      → feed_next_data c.sink core c.base_ack_no ≡ some sink
      → handle_window (suc fuel) c ≡ handle_window fuel (forward c sink)
  unfolding handle_window
  handle_window_step fuel c core sink sent found fed =
      let no_wrap : (c.base_ack_no + 1) % 2 ^ 32 ≡ c.base_ack_no + 1 = omega arith in
      rw (found, handle_window) (rw (fed, no_wrap) refl)

  pub handle_window-Forwards :
      (fuel : ℕ) (c : SelectiveRepeatClient)
      → length c.data_received ≤ fuel
      → Collects file c
      → (c' : SelectiveRepeatClient) × (handle_window fuel c ≡ some c') × Forwards file c c'
  unfolding handle_window
  handle_window-Forwards zero c small col =
      (c, refl, stays c col (lookup_empty c.base_ack_no c.data_received small))
  handle_window-Forwards (suc fuel) c small col =
      elim (Option-cases (lookup c.base_ack_no c.data_received)) [
        | inl nothing ↦ (c, rw (nothing, handle_window) refl, stays c col nothing)
        | inr (core, found) ↦
            let (same, more) = col.buffers c.base_ack_no core found in
            let (sink', e, h) = feed-segment file c.base_ack_no c.sink c.base_ack_no col.holds in
            let (c', e', f) =
              handle_window-Forwards fuel (forward c sink')
                (omega (arith, length-erase-lt c.base_ack_no core c.data_received found))
                (record {
                  holds = h;
                  range = omega arith;
                  buffers = Buffers-erase c.base_ack_no c.data_received col.buffers;
                }) in
            (
              c',
              handle_window_step fuel c core sink' (omega arith) found (rw same e) ∙ e',
              record {
                collects = f.collects;
                ahead = omega (arith, f.ahead);
                waits = f.waits;
                moves = λ _ _. f.ahead;
                same_end = f.same_end;
                same_last = f.same_last;
              },
            )
      ]

  Buffers-insert :
      (k : ℕ) (m : List (ℕ × PacketCoreData))
      → Buffers file m
      → lookup k m ≡ none
      → 512 * k < length file
      → Buffers file (insert k (segment file k) m)
  Buffers-insert k m b free more j core e =
      ground (arith, lookup-insert k j (segment file k) m free, b j core)

  -- Keeping a segment with data under its number.
  pub store_keeps :
      (c : SelectiveRepeatClient) (k : ℕ) (core : PacketCoreData)
      → ((store c k core).base_ack_no ≡ c.base_ack_no)
        × ((store c k core).end ≡ c.end)
        × ((store c k core).last_ack_no ≡ c.last_ack_no)
  unfolding store
  store_keeps c k core = ground arith

  pub store-Collects :
      (c : SelectiveRepeatClient) (k : ℕ)
      → Collects file c
      → 512 * k < length file
      → Collects file (store c k (segment file k))
        × ((core : PacketCoreData) × (lookup k (store c k (segment file k)).data_received
              ≡ some core))
  unfolding store
  store-Collects c k col more = elim (Option-cases (lookup k c.data_received)) [
    | inl free ↦ rw free (
      record {
        holds = col.holds;
        range = col.range;
        buffers = Buffers-insert k c.data_received col.buffers free more;
      },
      (segment file k, ground (arith, lookup-insert k k (segment file k) c.data_received free)),
    )
    | inr (core, e) ↦ rw e (col, (core, e))
  ]
