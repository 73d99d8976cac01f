-- ===== src/Arguments/Tests.antt =====
-- Parameter files, and what the parser makes of some texts.
use reliable_data_transfer.Base.{ℕ, ◌^◌, true, false, [], ◌∷◌, some, ◌≡◌, refl, arith, ltb}
use reliable_data_transfer.Arguments.{
  is_space, ltrim, rtrim, trim, value, thrown, is_valid_ip, valid_digit, convert, stoi, is_digit,
  number_from, has_number, push_token, tokens_from, one_more, check_tokens, atoi,
}
use reliable_data_transfer.SelectiveRepeat.Server.{is_empty}
use reliable_data_transfer.Arguments.Decimals.{decimal}
use reliable_data_transfer.Arguments.Addresses.{dotted}
use reliable_data_transfer.Arguments.Parameters.{
  FloatLibrary, ServerParameters, ClientParameters, read_server_parameters, read_client_parameters,
}
use reliable_data_transfer.Arguments.Reading.{
  unlines, read_server_parameters_roundtrip, read_client_parameters_roundtrip,
}

-- Floats that are whole numbers.
abbrev whole_floats : FloatLibrary
whole_floats = record {
  Float = ℕ;
  is_float = valid_digit;
  stof = convert (2 ^ 24);
  below_zero = λ x. false;
  above_one = λ x. ltb 1 x;
}

abbrev server_parameters : ServerParameters ℕ
server_parameters = record { serv_port = 8080; window_size = 5; seed = 7; loss_prob = 1 }

one_is_float : valid_digit (49 ∷ []) ≡ true
unfolding valid_digit is_digit
one_is_float = refl

one_is_read : convert (2 ^ 24) (49 ∷ []) ≡ value 1
unfolding convert number_from has_number is_digit
one_is_read = refl

read_server_parameters_roundtrip_example :
    read_server_parameters whole_floats
      (some (unlines (decimal 8080 ∷ decimal 5 ∷ decimal 7 ∷ (49 ∷ []) ∷ [])))
    ≡ value (some server_parameters)
read_server_parameters_roundtrip_example =
    read_server_parameters_roundtrip whole_floats server_parameters (49 ∷ []) (omega arith)
      (omega arith) (omega arith) (omega arith, tt) one_is_float one_is_read refl refl

-- The name of the file stands between spaces.
abbrev client_parameters : ClientParameters ℕ
client_parameters = record {
  in_add = 1;
  serv_port = 8080;
  cli_port = 8081;
  filename = 97 ∷ [];
  window_size = 5;
}

name_is_trimmed : trim (32 ∷ 97 ∷ 32 ∷ []) ≡ 97 ∷ []
unfolding trim ltrim rtrim is_space is_empty
name_is_trimmed = refl

read_client_parameters_roundtrip_example :
    read_client_parameters
      (λ host. some 1)
      (some (
        unlines
          (dotted 127 0 0 1 ∷ decimal 8080 ∷ decimal 8081 ∷ (32 ∷ 97 ∷ 32 ∷ []) ∷ decimal 5 ∷ [])))
    ≡ some (value (some client_parameters))
read_client_parameters_roundtrip_example =
    read_client_parameters_roundtrip (λ host. some 1) 127 0 0 1 client_parameters
      (32 ∷ 97 ∷ 32 ∷ []) (omega arith) (omega arith) (omega arith) (omega arith) refl (omega arith)
      (omega arith) (omega arith, (omega arith, (omega arith, tt))) name_is_trimmed (omega arith)

-- "1..2.3.4", an address with an empty part, is accepted.
doubled_dot : is_valid_ip (49 ∷ 46 ∷ 46 ∷ 50 ∷ 46 ∷ 51 ∷ 46 ∷ 52 ∷ []) ≡ some true
unfolding is_valid_ip tokens_from push_token one_more check_tokens valid_digit atoi number_from
    is_digit
doubled_dot = refl

-- An empty line passes for a number, and converting it throws.
empty_is_digits : valid_digit [] ≡ true
unfolding valid_digit
empty_is_digits = refl

empty_throws : stoi [] ≡ thrown
unfolding stoi convert has_number number_from
empty_throws = refl
