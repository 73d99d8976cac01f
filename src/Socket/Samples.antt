-- ===== src/Socket/Samples.antt =====
-- Datagrams of a small transfer, for the tests of the workers.
use reliable_data_transfer.Base.{
  ℕ, Bool, true, false, List, [], ◌∷◌, ◌++◌, Option, none, some, inl, inr, refl, arith, All, ◌≡◌,
  ap, sym, ◌∙◌, append-nil,
}
use reliable_data_transfer.Packet.{Packet, create_ack_packet}
use reliable_data_transfer.Serial.{serialize_packet, serialize_ackpacket, deserialize_packet}
use reliable_data_transfer.DataManagers.{DataSink, new_sink, set_sink_file}
use reliable_data_transfer.DataManagers.Sinking.{Holds, set_sink_file-Holds}
use reliable_data_transfer.Socket.{Recv, Host, receive_packet}
use reliable_data_transfer.Serial.Datagrams.{deserialize-serialize_packet}
use reliable_data_transfer.Socket.Lossless.{IsLossless}
use reliable_data_transfer.Socket.Genuine.{
  Fits, IsSent, IsRejected, Arrives, sent_packet, sent_packet-IsSentPacket, sent_packet-IsPacket,
}

-- A file of two bytes: packet 0 carries it, and packet 1 is the empty one.
abbrev pub small : List ℕ
small = 5 ∷ 6 ∷ []

abbrev pub datagram : ℕ → Recv
datagram i = record {
  bytes = serialize_packet (sent_packet small i);
  stack = [];
  would_block = false;
}

-- The receiver waits in vain.
abbrev pub silence : Recv
silence = record { bytes = []; stack = []; would_block = true }

pub silence-IsRejected : IsRejected silence
unfolding receive_packet
silence-IsRejected = (_, refl, inl refl)

-- The first packet late and twice, then the last one.
abbrev pub arrivals : List Recv
arrivals = silence ∷ datagram 0 ∷ datagram 0 ∷ datagram 1 ∷ []

pub arrivals_arrive : All (Arrives small) arrivals
arrivals_arrive = (
  inr silence-IsRejected,
  (
    inl (0, (omega arith, refl)),
    (inl (0, (omega arith, refl)), (inl (1, (omega arith, refl)), tt)),
  ),
)

pub small-Fits : Fits small
small-Fits = omega arith

abbrev pub sink : DataSink
sink = set_sink_file true new_sink []

pub sink-Holds : Holds [] sink
sink-Holds = set_sink_file-Holds new_sink []

-- The acknowledgement of a packet, on its way back.
abbrev pub acknowledgement : ℕ → Recv
acknowledgement i = record {
  bytes = serialize_ackpacket (create_ack_packet i);
  stack = [];
  would_block = false;
}

abbrev reply : Option Packet → Recv
reply none = silence
reply (some packet) = acknowledgement packet.seqno

abbrev first : List Recv → Recv × List Recv
first [] = (silence, [])
first (r ∷ inbox) = (r, inbox)

abbrev some_data : List Recv → Bool
some_data [] = false
some_data (r ∷ inbox) = true

-- A network without losses to a receiver that acknowledges each packet at once, and a clock that
-- stands still.
abbrev pub loopback : Host
loopback = record {
  World = List Recv;
  gettimeofday = λ inbox. (0, inbox);
  drop_packet = λ inbox. (false, inbox);
  sendto = λ bytes inbox. (true, inbox ++ reply (deserialize_packet bytes) ∷ []);
  recvfrom = λ tv inbox. first inbox;
  has_data = λ inbox. (some_data inbox, inbox);
  keeps_freed = true;
}

pub loopback-IsLossless : (file : List ℕ) → Fits file → IsLossless loopback file
loopback-IsLossless file fits = record {
  Idle = λ inbox. inbox ≡ [];
  Pending = λ i inbox. inbox ≡ acknowledgement i ∷ [];
  now = 0;
  clock = λ w. refl;
  clock_idle = λ w e. e;
  clock_pending = λ i w e. e;
  kept = λ w e. refl;
  kept_idle = λ w e. e;
  sends = λ i w e sent. refl;
  sends_pending =
      λ i w e sent. rw (e, arrives i sent, (sent_packet-IsSentPacket file i).number) refl;
  answers = λ i tv w e. rw e refl;
  data_idle = λ w e. rw e refl;
  data_pending = λ i w e. rw e refl;
  asked_idle = λ w e. e;
  asked_pending = λ i w e. e;
  answers_idle = λ i tv w e. rw e refl;
}
  where
    arrives :
        (i : ℕ)
        → IsSent file i
        → deserialize_packet (serialize_packet (sent_packet file i)) ≡ some (sent_packet file i)
    arrives i sent =
        ap deserialize_packet (sym (append-nil (serialize_packet (sent_packet file i))))
        ∙ deserialize-serialize_packet (sent_packet file i) []
            (sent_packet-IsPacket file i (omega arith))

pub loopback_idle : (file : List ℕ) (fits : Fits file) → (loopback-IsLossless file fits).Idle []
unfolding loopback-IsLossless
loopback_idle file fits = refl
