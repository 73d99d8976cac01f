-- ===== src/SelectiveRepeatCc/Server/Order.antt =====
-- selectiveRepeatCCServer.cpp: what holds of the worker between its steps.
use reliable_data_transfer.Base.{
  ℕ, ◌+◌, ◌*◌, ◌≤◌, ◌^◌, true, false, List, [], ◌∷◌, ◌++◌, All, some, ◌≡◌, refl, subst, inl, inr,
  arith, length, if-both, ◌||◌, ◌==◌, ◌&&◌, some_inj, Option-cases,
}
use reliable_data_transfer.Base.Maps.{
  lookup, has, insert, assign, erase, has-lookup-insert, has-lookup-erase, has-lookup-assign,
  length-erase-lt,
}
use reliable_data_transfer.Socket.{Host}
use reliable_data_transfer.Socket.Wire.{IsOfTransfer}
use reliable_data_transfer.SelectiveRepeat.Server.{is_in, remove, SelectiveRepeatServer, take_off}
use reliable_data_transfer.SelectiveRepeat.Server.Order.{InOrder}
use reliable_data_transfer.SelectiveRepeatCc.Congestion.Reach.{IsSane}
use reliable_data_transfer.SelectiveRepeatCc.Server.{SelectiveRepeatCcServer}

-- Each packet that has a time stands in the order.
abbrev pub Queued : List (ℕ × ℕ) → List ℕ → Type 0
Queued times order = (i : ℕ) → has (lookup i times) ≡ true → is_in i order ≡ true

-- All that has been handed to `sendto` belongs to the transfer, and the window is open and no wider
-- than the packets that have gone out, and one.
pub record IsCcSound (h : Host) (file : List ℕ) (s : SelectiveRepeatCcServer h) : Type 0 where
  pub low : s.core.base_seq_no ≤ s.core.seq_no
  pub open_window : 1 ≤ s.cong.window
  pub bounded : s.cong.window ≤ s.core.seq_no + 1
  pub wire : All (IsOfTransfer file) s.core.net.sent

-- Every packet of the transfer, the empty one included, has gone out and has been acknowledged.
pub record IsCcFinished (h : Host) (file : List ℕ) (s : SelectiveRepeatCcServer h) : Type 0 where
  pub all_acked : s.core.base_seq_no ≡ s.core.seq_no
  pub whole : length file + 512 ≤ 512 * s.core.seq_no
  pub sound : IsCcSound h file s

-- The invariant. The window has room to grow by one for each packet that is out.
pub record IsSteady (h : Host) (file : List ℕ) (least : ℕ) (s : SelectiveRepeatCcServer h)
    : Type 0 where
  pub in_order : InOrder h file (2 ^ 32) least s.core
  pub queued : Queued s.core.seqnums_sent s.core.send_order
  pub most : ℕ
  pub budget : most + length s.core.data_sent ≤ s.core.seq_no + 1
  pub sane : IsSane most s.cong

is_in-append_last :
    (i j : ℕ) (order : List ℕ) → is_in i (order ++ j ∷ []) ≡ ((j == i) || is_in i order)
unfolding is_in
is_in-append_last i j [] = refl
is_in-append_last i j (k ∷ order) = ground (arith, is_in-append_last i j order)

is_in-remove :
    (i j : ℕ) (order : List ℕ) → (j == i) ≡ false → is_in i (remove j order) ≡ is_in i order
unfolding is_in remove
is_in-remove i j [] e = refl
is_in-remove i j (k ∷ order) e = ground (arith, is_in-remove i j order e)

pub Queued-erase :
    (k : ℕ) (times : List (ℕ × ℕ)) (order : List ℕ)
    → Queued times order
    → Queued (erase k times) (remove k order)
Queued-erase k times order q i held =
    ground (arith, has-lookup-erase k i times, is_in-remove i k order, q i)

pub Queued-insert :
    (k now : ℕ) (times : List (ℕ × ℕ)) (order : List ℕ)
    → Queued times order
    → Queued (insert k now times) (order ++ k ∷ [])
Queued-insert k now times order q i held =
    ground (arith, has-lookup-insert k i now times, is_in-append_last i k order, q i)

pub Queued-again :
    (k now : ℕ) (times : List (ℕ × ℕ)) (order : List ℕ)
    → Queued times order
    → Queued (assign k now times) (remove k order ++ k ∷ [])
Queued-again k now times order q i held = ground (
  arith,
  has-lookup-assign k i now times,
  is_in-append_last i k (remove k order),
  is_in-remove i k order,
  q i,
)

-- What taking a packet off does to the maps that count.
pub record TakenOff (h : Host) (ackno : ℕ) (s s' : SelectiveRepeatServer h) : Type 0 where
  pub fewer : length s'.data_sent + 1 ≤ length s.data_sent
  pub same_seq : s'.seq_no ≡ s.seq_no
  pub times : s'.seqnums_sent ≡ erase ackno s.seqnums_sent
  pub order : s'.send_order ≡ remove ackno s.send_order

pub take_off-TakenOff :
    (h : Host) (ackno : ℕ) (s : SelectiveRepeatServer h) (s' : SelectiveRepeatServer h)
    → take_off h ackno s ≡ some s'
    → TakenOff h ackno s s'
unfolding take_off
take_off-TakenOff h ackno s =
    if-both (λ o. (s' : SelectiveRepeatServer h) → o ≡ some s' → TakenOff h ackno s s')
      (has (lookup ackno s.data_sent) && is_in ackno s.send_order) _ _
      (λ kept s' e.
        subst (TakenOff h ackno s) (some_inj e)
          (record { fewer = fewer kept; same_seq = refl; times = refl; order = refl }))
      (λ gone s' e. absurd cc)
  where
    fewer :
        (has (lookup ackno s.data_sent) && is_in ackno s.send_order) ≡ true
        → length (erase ackno s.data_sent) + 1 ≤ length s.data_sent
    fewer kept = elim (Option-cases (lookup ackno s.data_sent)) [
      | inl missing ↦ absurd (ground arith)
      | inr (packet, there) ↦ omega (arith, length-erase-lt ackno packet s.data_sent there)
    ]
