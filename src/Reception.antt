-- ===== src/Reception.antt =====
-- The receiving loop that the four client workers share: `while (running) { receive_packet; ... }`.
-- The datagrams are the list of what the calls of `recvfrom` bring, one call to an element; when
-- the list ends the worker is still waiting.
use reliable_data_transfer.Base.{
  ℕ, ◌+◌, ◌*◌, ◌≤◌, Bool, true, false, List, [], ◌∷◌, ◌++◌, Option, none, some, ◌⊎◌, inl, inr, ◌≡◌,
  refl, arith, length, if◌then◌else◌, ◌>>=◌, All, Bool-cases, Option-cases, some_inj, ap, sym, ◌∙◌,
}
use native.Mathlib.Decide.{dec_lt}
use reliable_data_transfer.Socket.{Recv}
use reliable_data_transfer.Socket.Genuine.{Arrives, IsDatagram}

module _ {S : Type 0} (running : S → Bool) (step : S → Recv → Option S) where
  pub receive_while : S → List Recv → Option S
  receive_while s [] = some s
  receive_while s (r ∷ rs) =
      let rest = step s r >>= λ s'. receive_while s' rs in if running s then rest else some s

-- The packets from number `k` to the last arrive one after the other, with anything in between.
abbrev pub Serves : List ℕ → ℕ → List Recv → Type 0
Serves file k [] = length file + 512 ≤ 512 * k
Serves file k (r ∷ rs) = (IsDatagram file k r × Serves file (k + 1) rs) ⊎ Serves file k rs

module _ {S : Type 0} (running : S → Bool) (step : S → Recv → Option S) (file : List ℕ)
    (P : S → Type 0) where
  -- An invariant that every arrival keeps holds when the loop ends, and the loop has no fault.
  pub receive_while_inv :
      ((s : S) (r : Recv)
        → running s ≡ true
        → P s
        → Arrives file r
        → (s' : S) × (step s r ≡ some s') × P s')
      → (s : S) (rs : List Recv) → P s
      → All (Arrives file) rs
      → (s' : S) × (receive_while running step s rs ≡ some s') × P s'
  unfolding receive_while
  receive_while_inv keep s [] p a = (s, refl, p)
  receive_while_inv keep s (r ∷ rs) p (here, later) = elim (Bool-cases (running s)) [
    | inr stopped ↦ (s, rw stopped refl, p)
    | inl runs ↦
        let (s1, e1, p1) = keep s r runs p here in
        let (s2, e2, p2) = receive_while_inv keep s1 rs p1 later in (s2, rw (runs, e1) e2, p2)
  ]

  -- Where every packet, when its turn comes, moves the worker on, the loop ends.
  pub receive_while-Serves :
      (at : S → ℕ)
      → ((s : S) (r : Recv)
          → running s ≡ true
          → P s
          → Arrives file r
          → (s' : S) × (step s r ≡ some s') × P s' × (at s ≤ at s'))
      → ((s : S) (r : Recv)
          → running s ≡ true
          → P s
          → IsDatagram file (at s) r
          → (s' : S) × (step s r ≡ some s') × (at s + 1 ≤ at s'))
      → ((s : S) → P s → length file + 512 ≤ 512 * at s → running s ≡ false)
      → (k : ℕ) (s : S) (rs : List Recv) → P s
      → k ≤ at s
      → All (Arrives file) rs
      → Serves file k rs
      → (s' : S) × (receive_while running step s rs ≡ some s') × P s' × (running s' ≡ false)
  unfolding receive_while
  receive_while-Serves at keep advance over k s [] p le a served =
      (s, refl, p, over s p (omega arith))
  receive_while-Serves at keep advance over k s (r ∷ rs) p le (here, later) served =
      elim (Bool-cases (running s)) [
        | inr stopped ↦ (s, rw stopped refl, p, stopped)
        | inl runs ↦
            let (s1, e1, p1, le1) = keep s r runs p here in
            let (k1, le2, served1) = moved runs s1 e1 le1 in
            let (s2, e2, p2, stopped) =
              receive_while-Serves at keep advance over k1 s1 rs p1 le2 later served1 in
            (s2, rw (runs, e1) e2, p2, stopped)
      ]
    where
      on_turn :
          running s ≡ true
          → (s1 : S) → step s r ≡ some s1
          → at s ≤ at s1
          → IsDatagram file k r
          → k + 1 ≤ at s1
      on_turn runs s1 e1 le1 d = elim (dec_lt k (at s)) [
        | yes early ↦ omega arith
        | no late ↦
            let same : k ≡ at s = omega arith in
            let (s2, e2, further) = advance s r runs p (rw same at d) in
            omega (arith, ap at (some_inj (sym e1 ∙ e2)))
      ]

      moved :
          running s ≡ true
          → (s1 : S) → step s r ≡ some s1
          → at s ≤ at s1
          → (k1 : ℕ) × (k1 ≤ at s1) × Serves file k1 rs
      moved runs s1 e1 le1 = elim served [
        | inl (d, more) ↦ (k + 1, on_turn runs s1 e1 le1 d, more)
        | inr more ↦ (k, omega arith, more)
      ]

module _ {S : Type 0} (running : S → Bool) (step : S → Recv → Option S) (file : List ℕ)
    (P : S → Type 0) (at : S → ℕ) where
  -- What a loop has reached after some arrivals is no more than what it reaches after more of them.
  pub receive_while_grows :
      ((s : S) (r : Recv)
        → P s
        → Arrives file r
        → (s' : S) × (step s r ≡ some s') × P s' × (at s ≤ at s'))
      → (s : S) (rs more : List Recv) → P s
      → All (Arrives file) rs
      → All (Arrives file) more
      → (s1 s2 : S) × (receive_while running step s rs ≡ some s1)
        × (receive_while running step s (rs ++ more) ≡ some s2)
        × P s1
        × P s2
        × (at s1 ≤ at s2)
  unfolding receive_while
  receive_while_grows keep s [] more p a b =
      let (s2, e2, (p2, further)) =
        receive_while_inv running step file (λ s'. P s' × (at s ≤ at s'))
          (λ s1 r runs (p1, le1) here.
            let (s3, e3, p3, le3) = keep s1 r p1 here in (s3, e3, (p3, omega arith)))
          s more (p, omega arith) b in
      (s, s2, refl, e2, p, p2, further)
  receive_while_grows keep s (r ∷ rs) more p (here, later) b = elim (Bool-cases (running s)) [
    | inr stopped ↦ (s, s, rw stopped refl, rw stopped refl, p, p, omega arith)
    | inl runs ↦
        let (s', e, p', _) = keep s r p here in
        let (s1, s2, e1, e2, p1, p2, further) = receive_while_grows keep s' rs more p' later b in
        (s1, s2, rw (runs, e) e1, rw (runs, e) e2, p1, p2, further)
  ]

-- Two steps that agree where an invariant holds, which they keep, give the same loop.
pub receive_while_same :
    {S : Type 0} (running : S → Bool) (step step' : S → Recv → Option S) (P : S → Type 0)
    → ((s : S) (r : Recv) → P s → (step s r ≡ step' s r) × ((s' : S) → step' s r ≡ some s' → P s'))
    → (s : S) (rs : List Recv) → P s
    → receive_while running step s rs ≡ receive_while running step' s rs
unfolding receive_while
receive_while_same running step step' P keep s [] p = refl
receive_while_same running step step' P keep s (r ∷ rs) p =
    let (same, kept) = keep s r p in
    elim (Option-cases (step' s r)) [
      | inl fault ↦ rw (same, fault) refl
      | inr (s', e) ↦
          rw (same, e) (rw (receive_while_same running step step' P keep s' rs (kept s' e)) refl)
    ]

module _ {S A : Type 0} (running : S → Bool) (step : S → Recv → Option S) (f : S → A) where
  -- What no arrival changes, the loop does not change.
  pub receive_while_keeps :
      ((s s' : S) (r : Recv) → step s r ≡ some s' → f s' ≡ f s)
      → (s s' : S) (rs : List Recv) → receive_while running step s rs ≡ some s'
      → f s' ≡ f s
  unfolding receive_while
  receive_while_keeps keep s s' [] e = ap f (sym (some_inj e))
  receive_while_keeps keep s s' (r ∷ rs) e = elim (Bool-cases (running s)) [
    | inr stopped ↦
        let stays : receive_while running step s (r ∷ rs) ≡ some s = rw stopped refl in
        ap f (some_inj (sym e ∙ stays))
    | inl runs ↦ elim (Option-cases (step s r)) [
      | inl fault ↦
          let stops : receive_while running step s (r ∷ rs) ≡ none = rw (runs, fault) refl in
          absurd (cc)
      | inr (s1, e1) ↦
          let goes : receive_while running step s (r ∷ rs) ≡ receive_while running step s1 rs =
            rw (runs, e1) refl in
          receive_while_keeps keep s1 s' rs (sym goes ∙ e) ∙ keep s s1 r e1
    ]
  ]
