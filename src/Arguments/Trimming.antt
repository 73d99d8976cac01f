-- ===== src/Arguments/Trimming.antt =====
-- parser/ArgumentParser.cpp: `trim`.
use reliable_data_transfer.Base.{
  ℕ, true, false, ◌&&◌, List, [], ◌∷◌, ◌++◌, All, ◌≡◌, refl, sym, ap, ◌∙◌, inl, inr, arith,
  Bool-cases, length, length-append, ◌≤◌,
}
use reliable_data_transfer.SelectiveRepeat.Server.{is_empty}
use reliable_data_transfer.Arguments.{is_space, ltrim, rtrim, trim}

abbrev pub IsBlank : List ℕ → Type 0
IsBlank s = All (λ ch. is_space ch ≡ true) s

-- The text is empty or starts with another byte.
abbrev pub StartsFull : List ℕ → Type 0
StartsFull [] = Unit
StartsFull (ch ∷ s) = is_space ch ≡ false

abbrev pub EndsFull : List ℕ → Type 0
EndsFull s = (init : List ℕ) (ch : ℕ) → s ≡ init ++ ch ∷ [] → is_space ch ≡ false

rtrim_blank : (blank : List ℕ) → IsBlank blank → rtrim blank ≡ []
unfolding rtrim is_empty
rtrim_blank [] b = refl
rtrim_blank (ch ∷ blank) (space, b) = rw (space, rtrim_blank blank b) refl

rtrim-IsBlank : (s blank : List ℕ) → IsBlank blank → rtrim (s ++ blank) ≡ rtrim s
unfolding rtrim
rtrim-IsBlank [] blank b = rtrim_blank blank b
rtrim-IsBlank (ch ∷ s) blank b = rw (rtrim-IsBlank s blank b) refl

ltrim_split :
    (s : List ℕ) → (blank : List ℕ) × IsBlank blank × (s ≡ blank ++ ltrim s) × StartsFull (ltrim s)
unfolding ltrim
ltrim_split [] = ([], tt, refl, tt)
ltrim_split (ch ∷ s) = elim (Bool-cases (is_space ch)) [
  | inl space ↦
      let (blank, b, e, full) = ltrim_split s in
      (ch ∷ blank, (space, b), rw space (ap (◌∷◌ ch) e), rw space full)
  | inr other ↦ ([], tt, rw other refl, rw (other, StartsFull) other)
]

is_empty_nil : (s : List ℕ) → is_empty s ≡ true → s ≡ []
unfolding is_empty
is_empty_nil [] e = refl
is_empty_nil (ch ∷ s) e = absurd cc

rtrim_split :
    (s : List ℕ)
    → (blank : List ℕ) × IsBlank blank × (s ≡ rtrim s ++ blank) × (rtrim (rtrim s) ≡ rtrim s)
unfolding rtrim
rtrim_split [] = ([], tt, refl, refl)
rtrim_split (ch ∷ s) =
    let (blank, b, e, again) = rtrim_split s in
    elim (Bool-cases (is_space ch && is_empty (rtrim s))) [
      | inl last ↦
          let (space, nothing) : (is_space ch ≡ true) × (is_empty (rtrim s) ≡ true) =
            ground arith in
          let nil = is_empty_nil (rtrim s) nothing in
          (
            ch ∷ blank,
            (space, b),
            rw last (ap (◌∷◌ ch) (e ∙ ap (λ t. t ++ blank) nil)),
            rw last refl,
          )
      | inr other ↦ (blank, b, rw other (ap (◌∷◌ ch) e), rw other (rw (rtrim, again, other) refl))
    ]

length-rtrim_le : (s : List ℕ) → length (rtrim s) ≤ length s
unfolding rtrim
length-rtrim_le [] = omega arith
length-rtrim_le (ch ∷ s) = ground (arith, length-rtrim_le s)

rtrim-EndsFull : (s : List ℕ) → rtrim s ≡ s → EndsFull s
rtrim-EndsFull s same init ch e = elim (Bool-cases (is_space ch)) [
  | inr other ↦ other
  | inl space ↦
      let shorter : rtrim s ≡ rtrim init = ap rtrim e ∙ rtrim-IsBlank init (ch ∷ []) (space, tt) in
      let short : length s ≤ length init =
        omega (arith, ap (length {0}) (sym same ∙ shorter), length-rtrim_le init) in
      absurd (omega (arith, ap (length {0}) e, length-append init (ch ∷ [])))
]

rtrim-StartsFull : (s : List ℕ) → StartsFull s → StartsFull (rtrim s)
unfolding rtrim
rtrim-StartsFull [] f = tt
rtrim-StartsFull (ch ∷ s) f = rw (f, StartsFull) f

-- Trimming takes spaces off both ends, and no other byte, and all spaces that are there.
pub trim-split :
    (s : List ℕ)
    → (front back : List ℕ) × IsBlank front
      × IsBlank back
      × (s ≡ front ++ (trim s ++ back))
      × StartsFull (trim s)
      × EndsFull (trim s)
unfolding trim
trim-split s =
    let (front, f, e, full) = ltrim_split s in
    let (back, b, e', again) = rtrim_split (ltrim s) in
    (
      front,
      back,
      f,
      b,
      e ∙ ap (◌++◌ front) e',
      rtrim-StartsFull (ltrim s) full,
      rtrim-EndsFull (rtrim (ltrim s)) again,
    )
