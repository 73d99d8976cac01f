-- ===== src/SelectiveRepeat/Server/Acks.antt =====
-- SelectiveRepeatServer.cpp: the set of acknowledged numbers and the base of the window.
use reliable_data_transfer.Base.{
  ℕ, zero, suc, ◌+◌, ◌≤◌, ◌<◌, ◌%◌, ◌^◌, Bool, true, List, none, ◌≡◌, refl, ◌∙◌, ap, arith, length,
  inl, inr, Option-cases, if◌then◌else◌, ne→==,
}
use reliable_data_transfer.Base.Maps.{
  lookup, has, erase, lookup-erase, length-erase-lt, lookup_empty,
}
use reliable_data_transfer.SelectiveRepeat.Server.{AckSet, forward}

-- Every number in the set is below `seq`.
abbrev pub Below : {V : Type 0} → ℕ → List (ℕ × V) → Type 0
Below seq m = (i : ℕ) → has (lookup i m) ≡ true → i < seq

-- The base has moved past numbers of the set, to the first one that is not in it.
pub record Forwarded (base seq : ℕ) (acks : AckSet) (r : ℕ × AckSet) : Type 0 where
  pub low : base ≤ r.0
  pub high : r.0 ≤ seq
  pub kept : (i : ℕ) → r.0 ≤ i → lookup i r.1 ≡ lookup i acks
  pub below : Below seq r.1
  pub open_at : lookup r.0 r.1 ≡ none

pub erase-Below : {V : Type 0} (k seq : ℕ) (m : List (ℕ × V)) → Below seq m → Below seq (erase k m)
erase-Below k seq m b i e = b i (ground (arith, lookup-erase k i m))

pub forward-Forwarded :
    (fuel base seq : ℕ) (acks : AckSet)
    → length acks ≤ fuel
    → base ≤ seq
    → seq < 2 ^ 32
    → Below seq acks
    → Forwarded base seq acks (forward fuel base acks)
unfolding forward
forward-Forwarded zero base seq acks long le small b = record {
  low = omega arith;
  high = le;
  kept = λ i h. refl;
  below = b;
  open_at = lookup_empty base acks long;
}
forward-Forwarded (suc fuel) base seq acks long le small b =
    elim (Option-cases (lookup base acks)) [
      | inl none_here ↦
          rw (none_here, forward)
            (record {
              low = omega arith;
              high = le;
              kept = λ i h. refl;
              below = b;
              open_at = none_here;
            })
      | inr (u, here) ↦
          let in_it : base < seq = b base (ap has here) in
          let no_wrap : (base + 1) % 2 ^ 32 ≡ base + 1 = omega arith in
          let shorter : length (erase base acks) ≤ fuel =
            omega (arith, length-erase-lt base u acks here) in
          let f =
            forward-Forwarded fuel (base + 1) seq (erase base acks) shorter (omega arith) small
              (erase-Below base seq acks b) in
          rw (here, forward, no_wrap)
            (record {
              low = omega (arith, f.low);
              high = f.high;
              kept = λ i h.
                  f.kept i h
                  ∙ lookup-erase base i acks
                  ∙ ap (λ (c : Bool). if c then none else lookup i acks)
                      (ne→== base i (omega (arith, f.low)));
              below = f.below;
              open_at = f.open_at;
            })
    ]
