-- ===== src/Arguments/Addresses.antt =====
-- parser/ArgumentParser.cpp: `is_valid_ip`.
use reliable_data_transfer.Base.{
  ℕ, ◌+◌, ◌≤◌, true, false, List, [], ◌∷◌, ◌++◌, some, ◌≡◌, refl, sym, ap, ◌∙◌, arith, ◌==◌,
  append_assoc, append-nil, le→leb,
}
use reliable_data_transfer.Arguments.{
  is_digit, push_token, tokens_from, one_more, check_tokens, is_valid_ip,
}
use reliable_data_transfer.Arguments.Decimals.{
  decimal, IsDigits, decimal-IsDigits, decimal_cons, valid_digit-decimal, atoi-decimal,
}

-- The four numbers with dots between them.
unfoldable pub dotted : ℕ → ℕ → ℕ → ℕ → List ℕ
dotted a b c d = decimal a ++ b'.' ∷ (decimal b ++ b'.' ∷ (decimal c ++ b'.' ∷ decimal d))

push_token-decimal :
    (n : ℕ) (tokens : List (List ℕ)) → push_token (decimal n) tokens ≡ decimal n ∷ tokens
unfolding push_token
push_token-decimal n tokens =
    let (ch, s, e, digit) = decimal_cons n in
    ap (λ t. push_token t tokens) e ∙ ap (λ t. t ∷ tokens) (sym e)

-- A digit is neither a zero nor a dot.
digit_other : (ch : ℕ) → is_digit ch ≡ true → ((ch == 0) ≡ false) × ((ch == 46) ≡ false)
unfolding is_digit
digit_other ch digit = (ground arith, ground arith)

tokens_from-dot :
    (token t s : List ℕ)
    → IsDigits t
    → tokens_from token (t ++ 46 ∷ s) ≡ push_token (token ++ t) (tokens_from [] s)
unfolding tokens_from
tokens_from-dot token [] s all = ap (λ u. push_token u (tokens_from [] s)) (sym (append-nil token))
tokens_from-dot token (ch ∷ t) s (digit, all) =
    let (full, no_dot) = digit_other ch digit in
    rw (full, no_dot)
      (tokens_from-dot (token ++ ch ∷ []) t s all
        ∙ ap (λ u. push_token u (tokens_from [] s)) (append_assoc token (ch ∷ []) t))

tokens_from-last :
    (token t : List ℕ) → IsDigits t → tokens_from token t ≡ push_token (token ++ t) []
unfolding tokens_from
tokens_from-last token [] all = ap (λ u. push_token u []) (sym (append-nil token))
tokens_from-last token (ch ∷ t) (digit, all) =
    let (full, no_dot) = digit_other ch digit in
    rw (full, no_dot)
      (tokens_from-last (token ++ ch ∷ []) t all
        ∙ ap (λ u. push_token u []) (append_assoc token (ch ∷ []) t))

one_token :
    (n : ℕ) (s : List ℕ) → tokens_from [] (decimal n ++ 46 ∷ s) ≡ decimal n ∷ tokens_from [] s
one_token n s =
    tokens_from-dot [] (decimal n) s (decimal-IsDigits n) ∙ push_token-decimal n (tokens_from [] s)

pub tokens_from-dotted :
    (a b c d : ℕ)
    → tokens_from [] (dotted a b c d) ≡ decimal a ∷ decimal b ∷ decimal c ∷ decimal d ∷ []
unfolding dotted
tokens_from-dotted a b c d =
    one_token a _
    ∙ ap (◌∷◌ (decimal a)) (
        one_token b _
        ∙ ap (◌∷◌ (decimal b)) (
            one_token c _
            ∙ ap (◌∷◌ (decimal c))
                (tokens_from-last [] (decimal d) (decimal-IsDigits d) ∙ push_token-decimal d [])))

check_tokens-decimal :
    (n dots : ℕ) (tokens : List (List ℕ))
    → n ≤ 255
    → check_tokens (decimal n ∷ tokens) dots ≡ check_tokens tokens (dots + one_more tokens)
unfolding check_tokens
check_tokens-decimal n dots tokens le =
    rw (valid_digit-decimal n, atoi-decimal n (omega arith), le→leb n 255 le) refl

pub is_valid_ip-dotted :
    (a b c d : ℕ) → a ≤ 255 → b ≤ 255 → c ≤ 255 → d ≤ 255 → is_valid_ip (dotted a b c d) ≡ some true
unfolding is_valid_ip one_more check_tokens
is_valid_ip-dotted a b c d la lb lc ld = rw (tokens_from-dotted a b c d) (
    check_tokens-decimal a 0 (decimal b ∷ decimal c ∷ decimal d ∷ []) la
    ∙ check_tokens-decimal b 1 (decimal c ∷ decimal d ∷ []) lb
    ∙ check_tokens-decimal c 2 (decimal d ∷ []) lc
    ∙ check_tokens-decimal d 3 [] ld)
