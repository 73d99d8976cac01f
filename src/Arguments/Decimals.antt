-- ===== src/Arguments/Decimals.antt =====
-- parser/ArgumentParser.cpp: numbers written in decimal, and reading them.
use reliable_data_transfer.Base.{
  ℕ, zero, suc, ◌+◌, ◌-◌, ◌*◌, ◌/◌, ◌%◌, ◌^◌, ◌≤◌, ◌<◌, true, List, [], ◌∷◌, ◌++◌, All, some, ◌≡◌,
  refl, ap, ◌∙◌, arith, ltb, if◌then◌else◌, if-both, lt→ltb,
}
use reliable_data_transfer.Socket.Wire.{All-append}
use reliable_data_transfer.Arguments.{
  is_digit, valid_digit, number_from, has_number, value, ◌and_then◌, convert, stoi, stoul, atoi,
}

-- The decimal text of a number, with as many digits at most as the fuel says, and one.
unfoldable pub decimal_from : ℕ → ℕ → List ℕ
decimal_from zero n = (b'0' + n % 10) ∷ []
decimal_from (suc fuel) n =
    let front = decimal_from fuel (n / 10) in
    if ltb n 10 then (b'0' + n) ∷ [] else front ++ (b'0' + n % 10) ∷ []

-- A number has fewer digits than its value, and one.
pub decimal : ℕ → List ℕ
decimal n = decimal_from n n

abbrev pub IsDigits : List ℕ → Type 0
IsDigits s = All (λ ch. is_digit ch ≡ true) s

digit_lem : (d : ℕ) → d < 10 → is_digit (48 + d) ≡ true
unfolding is_digit
digit_lem d lt = ground arith

decimal_from-IsDigits : (fuel n : ℕ) → IsDigits (decimal_from fuel n)
unfolding decimal_from
decimal_from-IsDigits zero n = (digit_lem (n % 10) (omega arith), tt)
decimal_from-IsDigits (suc fuel) n =
    if-both IsDigits (ltb n 10) _ _ (λ small. (digit_lem n (ground arith), tt))
      (λ large.
        All-append (λ ch. is_digit ch ≡ true) (decimal_from fuel (n / 10)) _
          (decimal_from-IsDigits fuel (n / 10)) (digit_lem (n % 10) (omega arith)))

number_from-append :
    (sum d : ℕ) (s : List ℕ)
    → IsDigits s
    → d < 10
    → number_from sum (s ++ (48 + d) ∷ []) ≡ 10 * number_from sum s + d
unfolding number_from
number_from-append sum d [] all lt = rw (digit_lem d lt) (omega arith)
number_from-append sum d (ch ∷ s) (digit, all) lt =
    rw digit (number_from-append (10 * sum + (ch - 48)) d s all lt)

number_from-decimal : (fuel n : ℕ) → n ≤ fuel → number_from 0 (decimal_from fuel n) ≡ n
unfolding decimal_from number_from
number_from-decimal zero n le = rw (digit_lem (n % 10) (omega arith)) (omega arith)
number_from-decimal (suc fuel) n le =
    if-both (λ s. number_from 0 s ≡ n) (ltb n 10) _ _
      (λ small. rw (digit_lem n (ground arith)) (omega arith))
      (λ large.
        number_from-append 0 (n % 10) (decimal_from fuel (n / 10))
          (decimal_from-IsDigits fuel (n / 10)) (omega arith)
        ∙ (let ten : 10 ≤ n = ground arith in
            let front = number_from-decimal fuel (n / 10) (omega arith) in rw front (omega arith)))

pub decimal-IsDigits : (n : ℕ) → IsDigits (decimal n)
unfolding decimal
decimal-IsDigits n = decimal_from-IsDigits n n

number_from-of_decimal : (n : ℕ) → number_from 0 (decimal n) ≡ n
unfolding decimal
number_from-of_decimal n = number_from-decimal n n (omega arith)

-- A text of digits that is not empty.
abbrev HasDigit : List ℕ → Type 0
HasDigit [] = ⊥
HasDigit (ch ∷ s) = is_digit ch ≡ true

HasDigit-append : (s t : List ℕ) → HasDigit s → HasDigit (s ++ t)
HasDigit-append [] t d = absurd d
HasDigit-append (ch ∷ s) t d = d

decimal_from-HasDigit : (fuel n : ℕ) → HasDigit (decimal_from fuel n)
unfolding decimal_from
decimal_from-HasDigit zero n = digit_lem (n % 10) (omega arith)
decimal_from-HasDigit (suc fuel) n =
    if-both HasDigit (ltb n 10) _ _ (λ small. digit_lem n (ground arith))
      (λ large.
        HasDigit-append (decimal_from fuel (n / 10)) _ (decimal_from-HasDigit fuel (n / 10)))

-- The text starts with a digit.
pub decimal_cons : (n : ℕ) → (ch : ℕ) × (s : List ℕ) × (decimal n ≡ ch ∷ s) × (is_digit ch ≡ true)
unfolding decimal
decimal_cons n = from (decimal_from n n) (decimal_from-HasDigit n n)
  where
    from : (t : List ℕ) → HasDigit t → (ch : ℕ) × (s : List ℕ) × (t ≡ ch ∷ s) × (is_digit ch ≡ true)
    from [] d = absurd d
    from (ch ∷ s) d = (ch, s, refl, d)

pub valid_digit-IsDigits : (s : List ℕ) → IsDigits s → valid_digit s ≡ true
unfolding valid_digit is_digit
valid_digit-IsDigits [] all = refl
valid_digit-IsDigits (ch ∷ s) (digit, all) = ground (arith, valid_digit-IsDigits s all)

pub valid_digit-decimal : (n : ℕ) → valid_digit (decimal n) ≡ true
valid_digit-decimal n = valid_digit-IsDigits (decimal n) (decimal-IsDigits n)

convert-decimal : (limit n : ℕ) → n < limit → convert limit (decimal n) ≡ value n
unfolding convert has_number
convert-decimal limit n lt =
    let (ch, s, e, digit) = decimal_cons n in
    let starts : has_number (decimal n) ≡ true = rw (e, has_number) digit in
    rw (number_from-of_decimal n, starts, lt→ltb n limit lt) refl

-- Reading a number back.
pub stoi-decimal : (n : ℕ) → n < 2 ^ 31 → stoi (decimal n) ≡ value n
unfolding stoi
stoi-decimal n lt = convert-decimal (2 ^ 31) n lt

pub stoul-decimal : (n : ℕ) → n < 2 ^ 32 → stoul (decimal n) ≡ value n
unfolding stoul ◌and_then◌
stoul-decimal n lt =
    let small : n % 2 ^ 32 ≡ n = omega arith in
    rw (convert-decimal (2 ^ 64) n (omega arith)) (ap value small)

pub atoi-decimal : (n : ℕ) → n < 2 ^ 31 → atoi (decimal n) ≡ some n
unfolding atoi
atoi-decimal n lt = rw (number_from-of_decimal n, lt→ltb n (2 ^ 31) lt) refl
