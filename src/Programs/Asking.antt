-- ===== src/Programs/Asking.antt =====
-- client.cpp: how often the request is sent.
use reliable_data_transfer.Base.{ℕ, zero, suc, ◌+◌, ◌*◌, ◌≤◌, List, inl, inr, arith, Bool-cases}
use reliable_data_transfer.Packet.{Packet}
use reliable_data_transfer.Serial.{serialize_packet}
use reliable_data_transfer.Programs.Retries.{max_retries, attempt, attempt_cost}
use reliable_data_transfer.Programs.ClientProgram.{
  ClientHost, Asked, unsent, unanswered, answered, ask,
}

module _ (h : ClientHost) where
  open h use {World, sendto, peek}

  abbrev pub world_of : Asked h → World
  world_of (unsent w) = w
  world_of (unanswered w) = w
  world_of (answered w) = w

  -- Where `calls` counts the calls of `sendto`, and `peek` makes none: with so many rounds left, the
  -- request goes out four times at most in each.
  ask_cost :
      (calls : World → ℕ)
      → ((bytes : List ℕ) (w : World) → calls (sendto bytes w).1 ≤ calls w + 1)
      → ((w : World) → calls (peek w).1 ≤ calls w)
      → (left : ℕ) (pack : Packet) (w : World)
      → calls (world_of (ask h left pack w)) ≤ calls w + 4 * left
  unfolding ask
  ask_cost calls one quiet zero pack w = omega arith
  ask_cost calls one quiet (suc left) pack w =
      let t = attempt max_retries (sendto (serialize_packet pack)) w in
      let tries =
        attempt_cost calls (sendto (serialize_packet pack)) (one (serialize_packet pack)) 3 w in
      elim (Bool-cases t.0) [
        | inr failed ↦ rw (failed, ask) (omega (arith, tries))
        | inl sent ↦ elim (Bool-cases (peek t.1).0) [
          | inl some_answer ↦ rw (sent, some_answer, ask) (omega (arith, tries, quiet t.1))
          | inr silent ↦
              rw (sent, silent, ask)
                (omega (arith, tries, quiet t.1, ask_cost calls one quiet left pack (peek t.1).1))
        ]
      ]

  -- Whatever the network does, the client makes twelve calls of `sendto` at most before it gives up
  -- or receives: three rounds, each with one call and three more.
  pub request_bound :
      (calls : World → ℕ)
      → ((bytes : List ℕ) (w : World) → calls (sendto bytes w).1 ≤ calls w + 1)
      → ((w : World) → calls (peek w).1 ≤ calls w)
      → (pack : Packet) (w : World) → calls (world_of (ask h max_retries pack w)) ≤ calls w + 12
  request_bound calls one quiet pack w = omega (arith, ask_cost calls one quiet 3 pack w)
