-- ===== src/Run.antt =====
-- The control flow of the servers: a `return` inside loops, undefined behaviour, and loops that are
-- followed for a bounded number of rounds.
use reliable_data_transfer.Base.{
  ℕ, zero, suc, Bool, true, false, Option, none, some, ◌≡◌, inl, inr, refl, Bool-cases, ◌>>=◌,
}

-- What running a piece of a function that ends in an `A` leaves: undefined behaviour, the state
-- where the rounds ran out, the state where the function returned early, or the end.
pub data Run (S A : Type 0) : Type 0 where
  fault : Run S A
  unfinished : S → Run S A
  returned : S → Run S A
  done : A → Run S A

module _ {S : Type 0} where
  -- Going on where the piece has ended.
  infixl 5 ◌then◌
  unfoldable pub ◌then◌ : {A B : Type 0} → Run S A → (A → Run S B) → Run S B
  fault then f = fault
  (unfinished s) then f = unfinished s
  (returned s) then f = returned s
  (done a) then f = f a

  unfoldable pub or_fault : {A : Type 0} → Option A → Run S A
  or_fault none = fault
  or_fault (some a) = done a

  -- `while (test) body`, for a number of rounds. Testing may change the state.
  unfoldable pub repeat : ℕ → (S → Bool × S) → (S → Run S S) → S → Run S S
  repeat zero test body s = unfinished s
  repeat (suc n) test body s =
      let t = test s in elim t.0 [ true ↦ body t.1 then repeat n test body | false ↦ done t.1 ]

  -- `P` holds wherever the piece stops early, and `Q` at its end.
  abbrev pub Ensures : {A : Type 0} → (S → Type 0) → (A → Type 0) → Run S A → Type 0
  Ensures P Q fault = Unit
  Ensures P Q (unfinished s) = P s
  Ensures P Q (returned s) = P s
  Ensures P Q (done a) = Q a

  module _ (P : S → Type 0) where
    pub then-Ensures :
        {A B : Type 0} (Q : A → Type 0) (R : B → Type 0) (r : Run S A) (f : A → Run S B)
        → Ensures P Q r
        → ((a : A) → Q a → Ensures P R (f a))
        → Ensures P R (r then f)
    unfolding ◌then◌
    then-Ensures Q R fault f e next = tt
    then-Ensures Q R (unfinished s) f e next = e
    then-Ensures Q R (returned s) f e next = e
    then-Ensures Q R (done a) f e next = next a e

    -- A loop keeps what its test and its body keep, and has failed its test at the end.
    pub repeat-Ensures :
        (test : S → Bool × S) (body : S → Run S S) (I R : S → Type 0)
        → ((s : S) → I s → P s)
        → ((s : S) → I s → (test s).0 ≡ true → Ensures P I (body (test s).1))
        → ((s : S) → I s → (test s).0 ≡ false → R (test s).1)
        → (n : ℕ) (s : S) → I s
        → Ensures P R (repeat n test body s)
    unfolding repeat
    repeat-Ensures test body I R sound keep last zero s p = sound s p
    repeat-Ensures test body I R sound keep last (suc n) s p = elim (Bool-cases (test s).0) [
      | inl yes_more ↦
          rw (yes_more, Ensures)
            (then-Ensures I R (body (test s).1) (repeat n test body) (keep s p yes_more)
              (λ s' p'. repeat-Ensures test body I R sound keep last n s' p'))
      | inr no_more ↦ rw (no_more, Ensures) (last s p no_more)
    ]

    pub bind-Ensures :
        {A B : Type 0} (Q : A → Type 0) (R : B → Type 0) (o : Option A) (f : A → Option B)
        → Ensures P Q (or_fault o)
        → ((a : A) → Q a → Ensures P R (or_fault (f a)))
        → Ensures P R (or_fault (o >>= f))
    unfolding or_fault
    bind-Ensures Q R none f e next = tt
    bind-Ensures Q R (some a) f e next = next a e

    -- What a step makes of a property of the state alone.
    pub or_fault-Ensures :
        {A : Type 0} (Q : A → Type 0) (o : Option A)
        → ((a : A) → o ≡ some a → Q a)
        → Ensures P Q (or_fault o)
    unfolding or_fault
    or_fault-Ensures Q none all = tt
    or_fault-Ensures Q (some a) all = all a refl

    pub Ensures-weaken :
        {A : Type 0} (P' : S → Type 0) (Q : A → Type 0) (r : Run S A)
        → ((s : S) → P' s → P s)
        → Ensures P' Q r
        → Ensures P Q r
    Ensures-weaken P' Q fault weak e = tt
    Ensures-weaken P' Q (unfinished s) weak e = weak s e
    Ensures-weaken P' Q (returned s) weak e = weak s e
    Ensures-weaken P' Q (done a) weak e = e

  module _ (test : S → Bool × S) (body : S → Run S S) where
    -- A round of a loop that ends without a return, and the last test.
    pub repeat_round :
        (n : ℕ) (s s' : S)
        → (test s).0 ≡ true
        → body (test s).1 ≡ done s'
        → repeat (suc n) test body s ≡ repeat n test body s'
    unfolding repeat ◌then◌
    repeat_round n s s' go e = rw (go, repeat, e) refl

    pub repeat_stop :
        (n : ℕ) (s : S) → (test s).0 ≡ false → repeat (suc n) test body s ≡ done (test s).1
    unfolding repeat
    repeat_stop n s stop = rw (stop, repeat) refl
