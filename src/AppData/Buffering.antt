-- ===== src/AppData/Buffering.antt =====
-- web_models/app_data.cpp and data_managers/DataSink.cpp: what `get_buff` gives back.
use reliable_data_transfer.Base.{
  ℕ, ◌+◌, ◌^◌, ◌≤◌, ◌<◌, List, [], ◌∷◌, ◌++◌, All, Option, some, ◌>>=◌, ◌≡◌, refl, sym, ap, ◌∙◌,
  arith, length, length-append, take, drop, take-append, length-take, append_assoc, append-nil,
  subst,
}
use reliable_data_transfer.Packet.{Packet, PacketCoreData, zero_bytes}
use reliable_data_transfer.Packet.Copy.{data_packet, data_packet_fields}
use reliable_data_transfer.DataManagers.{DataSink, feed_next_data}
use reliable_data_transfer.DataManagers.Draining.{contents}
use reliable_data_transfer.DataManagers.Sinking.{Holds, feed_next_data-Holds}
use reliable_data_transfer.AppData.{copies, message_length, get_buff}
use reliable_data_transfer.AppData.Assembling.{Carries, one_packet, assembled}

-- Segments that are fed one after the other, with numbers that count.
unfoldable pub feed_all : DataSink → List PacketCoreData → ℕ → Option DataSink
feed_all sink [] seq_no = some sink
feed_all sink (core ∷ cores) seq_no =
    feed_next_data sink core seq_no >>= λ sink. feed_all sink cores (seq_no + 1)

-- What a segment has to be: a packet has room for it, and its bytes are there.
abbrev pub IsSegment : PacketCoreData → Type 0
IsSegment core = (core.size ≤ 512) × (core.size ≤ length core.payload)

packed : List PacketCoreData → ℕ → List Packet
packed [] seq_no = []
packed (core ∷ cores) seq_no = data_packet core.payload core.size seq_no ∷ packed cores (seq_no + 1)

packed-Carries :
    (cores : List PacketCoreData) (seq_no : ℕ)
    → All IsSegment cores
    → Carries (contents cores) (length (contents cores)) (packed cores seq_no)
unfolding contents packed copies message_length
packed-Carries [] seq_no all = record { copied = refl; long = λ len lt. omega arith }
packed-Carries (core ∷ cores) seq_no ((small, there), all) =
    let pack : Packet = data_packet core.payload core.size seq_no in
    let fields = data_packet_fields core.payload core.size seq_no in
    let long : length (take core.size core.payload) ≡ core.size =
      omega (arith, length-take core.size core.payload) in
    let carried : take core.size pack.payload ≡ take core.size core.payload =
      ap (take core.size) fields.2
      ∙ take-append (take core.size core.payload) (drop core.size (zero_bytes 512)) core.size
          long in
    let sum : core.size + length (contents cores)
        ≡ length (take core.size core.payload ++ contents cores) =
      omega (arith, long, length-append (take core.size core.payload) (contents cores)) in
    subst
      (λ n.
        Carries (take core.size core.payload ++ contents cores) n
          (pack ∷ packed cores (seq_no + 1)))
      sum
      (one_packet core.size (length (contents cores)) (take core.size core.payload) (contents cores)
        pack (packed cores (seq_no + 1)) small fields.1 carried
        (packed-Carries cores (seq_no + 1) all))

feed_all-packed :
    (written : List ℕ) (sink : DataSink) (cores : List PacketCoreData) (seq_no : ℕ)
    → Holds written sink
    → All IsSegment cores
    → (sink' : DataSink) × (feed_all sink cores seq_no ≡ some sink')
      × Holds (written ++ contents cores) sink'
      × (sink'.packets ≡ sink.packets ++ packed cores seq_no)
unfolding feed_all contents packed
feed_all-packed written sink [] seq_no h all = (
  sink,
  refl,
  subst (λ w. Holds w sink) (sym (append-nil written)) h,
  sym (append-nil sink.packets),
)
feed_all-packed written sink (core ∷ cores) seq_no h ((small, there), all) =
    let (sink1, e1, h1, p1) = feed_next_data-Holds written sink core seq_no h small there in
    let (sink2, e2, h2, p2) =
      feed_all-packed (written ++ take core.size core.payload) sink1 cores (seq_no + 1) h1 all in
    (
      sink2,
      rw e1 e2,
      subst (λ w. Holds w sink2)
          (append_assoc written (take core.size core.payload) (contents cores)) h2,
      p2
          ∙ ap (λ ps. ps ++ packed cores (seq_no + 1)) p1
          ∙ append_assoc sink.packets (data_packet core.payload core.size seq_no ∷ [])
              (packed cores (seq_no + 1)),
    )

-- A sink without packets whose file is open and empty is fed segments that fit a packet, less than
-- 2^32 bytes in all: then get_buff gives back their bytes one after the other, with their number,
-- and the file holds the same bytes.
pub get_buff-feed_all :
    (sink : DataSink) (cores : List PacketCoreData) (seq_no : ℕ)
    → Holds [] sink
    → sink.packets ≡ []
    → All IsSegment cores
    → length (contents cores) < 2 ^ 32
    → (sink' : DataSink) × (feed_all sink cores seq_no ≡ some sink')
      × (get_buff sink'
          ≡ some (record { payload = contents cores; len_data = length (contents cores) }))
      × Holds (contents cores) sink'
unfolding get_buff
get_buff-feed_all sink cores seq_no h none_yet all small =
    let (sink', e, h', ps) = feed_all-packed [] sink cores seq_no h all in
    let kept : sink'.packets ≡ packed cores seq_no =
      ps ∙ ap (λ old. old ++ packed cores seq_no) none_yet in
    (
      sink',
      e,
      rw kept (
          assembled (record { payload = contents cores; len_data = length (contents cores) })
            (packed cores seq_no) refl small (packed-Carries cores seq_no all)),
      h',
    )
