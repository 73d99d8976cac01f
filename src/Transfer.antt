-- ===== src/Transfer.antt =====
-- A server worker, a network and a client worker together: what the client makes of the datagrams
-- that the server has handed to `sendto`.
pub mod Whole
use reliable_data_transfer.Base.{ℕ, List, [], ◌∷◌, All, ◌≡◌, ◌⊎◌}
use reliable_data_transfer.Socket.{Recv}
use reliable_data_transfer.Socket.Genuine.{IsRejected}

-- The datagram is one of those.
abbrev pub In : List ℕ → List (List ℕ) → Type 0
In bytes [] = ⊥
In bytes (d ∷ sent) = (bytes ≡ d) ⊎ In bytes sent

-- What a reception can bring when those have been sent: one of them, or nothing, or a failure, or
-- damage that the checksum shows.
abbrev pub IsCarried : List (List ℕ) → Recv → Type 0
IsCarried sent r = In r.bytes sent ⊎ IsRejected r
