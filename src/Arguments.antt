-- ===== src/Arguments.antt =====
-- parser/ArgumentParser.cpp: the parameter files. Text is the list of its bytes. `none` stands for
-- undefined behaviour.
pub mod Trimming
pub mod Decimals
pub mod Addresses
pub mod Parameters
pub mod Reading
mod Tests
use reliable_data_transfer.Base.{
  ℕ, zero, suc, ◌+◌, ◌-◌, ◌*◌, ◌^◌, ◌<◌, Bool, true, false, not, ◌&&◌, ◌||◌, List, [], ◌∷◌, ◌++◌,
  Option, none, some, ltb, leb, ◌==◌, if◌then◌else◌, ◌>>=◌, u32,
}
use reliable_data_transfer.SelectiveRepeat.Server.{is_empty}

-- `isspace` in the C locale.
unfoldable pub is_space : ℕ → Bool
is_space ch = (leb b'\t' ch && leb ch b'\r') || (ch == b' ')

-- `ltrim`: up to the first byte that is not a space.
unfoldable pub ltrim : List ℕ → List ℕ
ltrim [] = []
ltrim (ch ∷ s) = let rest = ltrim s in if is_space ch then rest else ch ∷ s

-- `rtrim`: behind the last byte that is not a space.
unfoldable pub rtrim : List ℕ → List ℕ
rtrim [] = []
rtrim (ch ∷ s) = let rest = rtrim s in if is_space ch && is_empty rest then [] else ch ∷ rest

unfoldable pub trim : List ℕ → List ℕ
trim s = rtrim (ltrim s)

unfoldable pub is_digit : ℕ → Bool
is_digit ch = leb b'0' ch && leb ch b'9'

-- `valid_digit(s.c_str())`: up to the first zero, only digits.
unfoldable pub valid_digit : List ℕ → Bool
valid_digit [] = true
valid_digit (ch ∷ s) = let rest = valid_digit s in if ch == 0 then true else is_digit ch && rest

-- The number in front of a text that starts with no blank and no sign, and whether there is one.
unfoldable pub number_from : ℕ → List ℕ → ℕ
number_from sum [] = sum
number_from sum (ch ∷ s) =
    let rest = number_from (10 * sum + (ch - b'0')) s in if is_digit ch then rest else sum

unfoldable pub has_number : List ℕ → Bool
has_number [] = false
has_number (ch ∷ s) = is_digit ch

-- What leaves a function of the library, or this parser: an exception that nothing catches, or a
-- result.
pub data Result {ℓ} (A : Type ℓ) : Type ℓ where
  thrown : Result A
  value : A → Result A

infixl 5 ◌and_then◌
unfoldable pub ◌and_then◌ {ℓ κ} : {A : Type ℓ} {B : Type κ} → Result A → (A → Result B) → Result B
thrown and_then f = thrown
(value a) and_then f = f a

-- A conversion throws where there is no number, and where it is beyond the type.
unfoldable pub convert : (limit : ℕ) → List ℕ → Result ℕ
convert limit s = let n = number_from 0 s in if has_number s && ltb n limit then value n else thrown

-- `stoi`, and `stoul` with 64 bits, whose value goes into an `unsigned int`. Every text that comes
-- here has passed `valid_digit`.
unfoldable pub stoi : List ℕ → Result ℕ
stoi = convert (2 ^ 31)

unfoldable pub stoul : List ℕ → Result ℕ
stoul s = convert (2 ^ 64) s and_then λ n. value (u32 n)

-- `atoi` is undefined beyond the type.
unfoldable pub atoi : List ℕ → Option ℕ
atoi s = let n = number_from 0 s in if ltb n (2 ^ 31) then some n else none

-- A token goes to the list if it is not empty: `strtok` skips delimiters that follow each other.
unfoldable pub push_token : List ℕ → List (List ℕ) → List (List ℕ)
push_token [] tokens = tokens
push_token (ch ∷ token) tokens = (ch ∷ token) ∷ tokens

-- What the calls of `strtok(_, ".")` bring, with the token that has begun.
unfoldable pub tokens_from : List ℕ → List ℕ → List (List ℕ)
tokens_from token [] = push_token token []
tokens_from token (ch ∷ s) =
    let next = push_token token (tokens_from [] s) in
    let same = tokens_from (token ++ ch ∷ []) s in
    if ch == 0 then push_token token [] else if ch == b'.' then next else same

unfoldable pub one_more : List (List ℕ) → ℕ
one_more [] = 0
one_more (token ∷ tokens) = 1

-- `while (ptr)`, with the dots that have been counted.
unfoldable pub check_tokens : List (List ℕ) → ℕ → Option Bool
check_tokens [] dots = some (dots == 3)
check_tokens (token ∷ tokens) dots =
    let rest = check_tokens tokens (dots + one_more tokens) in
    if not (valid_digit token)
    then some false
    else (atoi token >>= λ num. if leb num 255 then rest else some false)

unfoldable pub is_valid_ip : List ℕ → Option Bool
is_valid_ip s =
    let tokens = tokens_from [] s in
    if not (one_more tokens == 0) then check_tokens tokens 0 else some false

-- A byte in front of the first line.
unfoldable pub cons_first : ℕ → List (List ℕ) → List (List ℕ)
cons_first ch [] = (ch ∷ []) ∷ []
cons_first ch (line ∷ lines) = (ch ∷ line) ∷ lines

-- `while (getline(in, line))` on the bytes of the file.
unfoldable pub lines_of : List ℕ → List (List ℕ)
lines_of [] = []
lines_of (ch ∷ s) = let rest = lines_of s in if ch == b'\n' then [] ∷ rest else cons_first ch rest

-- `readLines`: a file that cannot be opened has no lines.
unfoldable pub read_lines : Option (List ℕ) → List (List ℕ)
read_lines none = []
read_lines (some bytes) = lines_of bytes
