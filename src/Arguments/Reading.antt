-- ===== src/Arguments/Reading.antt =====
-- parser/ArgumentParser.cpp: parameter files that are written as the programs expect them.
use reliable_data_transfer.Base.{
  ℕ, ◌≤◌, ◌<◌, ◌^◌, true, false, List, [], ◌∷◌, ◌++◌, All, Option, some, ◌≡◌, ◌≢◌, refl, ap, ◌∙◌,
  arith, ne→==,
}
use reliable_data_transfer.Arguments.{
  is_digit, trim, value, ◌and_then◌, cons_first, lines_of, read_lines,
}
use reliable_data_transfer.Arguments.Decimals.{
  decimal, IsDigits, decimal-IsDigits, valid_digit-decimal, stoi-decimal, stoul-decimal,
}
use reliable_data_transfer.Arguments.Addresses.{dotted, is_valid_ip-dotted}
use reliable_data_transfer.Arguments.Parameters.{
  FloatLibrary, ServerParameters, ClientParameters, convert_server, server_lines,
  read_server_parameters, convert_client, client_lines, read_client_parameters,
}

-- The text is one line.
abbrev pub IsLine : List ℕ → Type 0
IsLine s = All (λ ch. ch ≢ 10) s

-- The bytes of a file with these lines.
unfoldable pub unlines : List (List ℕ) → List ℕ
unlines [] = []
unlines (line ∷ lines) = line ++ 10 ∷ unlines lines

lines_of-line : (line s : List ℕ) → IsLine line → lines_of (line ++ 10 ∷ s) ≡ line ∷ lines_of s
unfolding lines_of cons_first
lines_of-line [] s l = refl
lines_of-line (ch ∷ line) s (other, l) = rw (ne→== ch 10 other, lines_of-line line s l) refl

pub lines_of-unlines : (lines : List (List ℕ)) → All IsLine lines → lines_of (unlines lines) ≡ lines
unfolding lines_of unlines
lines_of-unlines [] all = refl
lines_of-unlines (line ∷ lines) (l, all) =
    lines_of-line line (unlines lines) l ∙ ap (◌∷◌ line) (lines_of-unlines lines all)

digit_no_newline : (ch : ℕ) → is_digit ch ≡ true → ch ≢ 10
unfolding is_digit
digit_no_newline ch digit = ground arith

IsDigits-IsLine : (s : List ℕ) → IsDigits s → IsLine s
IsDigits-IsLine [] all = tt
IsDigits-IsLine (ch ∷ s) (digit, all) = (digit_no_newline ch digit, IsDigits-IsLine s all)

decimal-IsLine : (n : ℕ) → IsLine (decimal n)
decimal-IsLine n = IsDigits-IsLine (decimal n) (decimal-IsDigits n)

IsLine-dot : (s t : List ℕ) → IsLine s → IsLine t → IsLine (s ++ 46 ∷ t)
IsLine-dot [] t l k = (omega arith, k)
IsLine-dot (ch ∷ s) t (other, l) k = (other, IsLine-dot s t l k)

dotted-IsLine : (a b c d : ℕ) → IsLine (dotted a b c d)
unfolding dotted
dotted-IsLine a b c d = IsLine-dot (decimal a) _ (decimal-IsLine a) (
    IsLine-dot (decimal b) _ (decimal-IsLine b)
      (IsLine-dot (decimal c) _ (decimal-IsLine c) (decimal-IsLine d)))

-- A file with the port, the window, the seed and the loss probability, each on a line of its own, is
-- read back, if the port fits an `int`, the other two numbers fit an `unsigned int`, and the last
-- line is read as a float that is neither below zero nor above one.
pub read_server_parameters_roundtrip :
    (f : FloatLibrary) (p : ServerParameters f.Float) (loss : List ℕ)
    → p.serv_port < 2 ^ 31
    → p.window_size < 2 ^ 32
    → p.seed < 2 ^ 32
    → IsLine loss
    → f.is_float loss ≡ true
    → f.stof loss ≡ value p.loss_prob
    → f.below_zero p.loss_prob ≡ false
    → f.above_one p.loss_prob ≡ false
    → read_server_parameters f
        (some (unlines (decimal p.serv_port ∷ decimal p.window_size ∷ decimal p.seed ∷ loss ∷ [])))
      ≡ value (some p)
unfolding read_server_parameters read_lines server_lines convert_server ◌and_then◌
read_server_parameters_roundtrip f p loss port window seed line is_float read low high =
    rw
      (
        lines_of-unlines (decimal p.serv_port ∷ decimal p.window_size ∷ decimal p.seed ∷ loss ∷ [])
            (
              decimal-IsLine p.serv_port,
              (decimal-IsLine p.window_size, (decimal-IsLine p.seed, (line, tt))),
            ),
        valid_digit-decimal p.serv_port,
        valid_digit-decimal p.window_size,
        valid_digit-decimal p.seed,
        is_float,
        stoi-decimal p.serv_port port,
        stoul-decimal p.window_size window,
        stoul-decimal p.seed seed,
        read,
        low,
        high,
      )
      refl

-- A file with the address of the server as four numbers with dots between them, the two ports, the
-- name of the file and the window, each on a line of its own, is read back, with the spaces around
-- the name taken off, if each part of the address is at most 255, the host is found, the ports fit
-- an `int`, and the window fits an `unsigned int`.
pub read_client_parameters_roundtrip :
    {A : Type 0} (get_host_by_name : List ℕ → Option A) (a b c d : ℕ) (p : ClientParameters A)
    (name : List ℕ)
    → a ≤ 255
    → b ≤ 255
    → c ≤ 255
    → d ≤ 255
    → get_host_by_name (dotted a b c d) ≡ some p.in_add
    → p.serv_port < 2 ^ 31
    → p.cli_port < 2 ^ 31
    → IsLine name
    → trim name ≡ p.filename
    → p.window_size < 2 ^ 32
    → read_client_parameters get_host_by_name (
        some (
          unlines (
            dotted a b c d
            ∷ decimal p.serv_port
            ∷ decimal p.cli_port
            ∷ name
            ∷ decimal p.window_size
            ∷ [])))
      ≡ some (value (some p))
unfolding read_client_parameters read_lines client_lines convert_client ◌and_then◌
read_client_parameters_roundtrip get_host_by_name a b c d p name la lb lc ld found server client
      line trimmed window =
    rw
      (
        lines_of-unlines
            (dotted a b c d
              ∷ decimal p.serv_port
              ∷ decimal p.cli_port
              ∷ name
              ∷ decimal p.window_size
              ∷ [])
            (
              dotted-IsLine a b c d,
              (
                decimal-IsLine p.serv_port,
                (decimal-IsLine p.cli_port, (line, (decimal-IsLine p.window_size, tt))),
              ),
            ),
        valid_digit-decimal p.serv_port,
        valid_digit-decimal p.cli_port,
        is_valid_ip-dotted a b c d la lb lc ld,
        valid_digit-decimal p.window_size,
        found,
        stoi-decimal p.serv_port server,
        stoi-decimal p.cli_port client,
        stoul-decimal p.window_size window,
        trimmed,
      )
      refl
