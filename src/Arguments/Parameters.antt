-- ===== src/Arguments/Parameters.antt =====
-- parser/ArgumentParser.cpp: `readServerParameters` and `readClientParameters`. Reading floating
-- numbers and looking a host up are parameters.
use reliable_data_transfer.Base.{
  ℕ, Bool, ◌&&◌, ◌||◌, List, [], ◌∷◌, Option, none, some, if◌then◌else◌, ◌>>=◌,
}
use reliable_data_transfer.Arguments.{
  trim, valid_digit, Result, value, ◌and_then◌, stoi, stoul, is_valid_ip, read_lines,
}

-- `float`, `isFloat`, `stof`, and the two comparisons of the loss probability.
pub record FloatLibrary : Type 1 where
  pub Float : Type 0
  pub is_float : List ℕ → Bool
  pub stof : List ℕ → Result Float
  pub below_zero : Float → Bool
  pub above_one : Float → Bool

pub record ServerParameters (F : Type 0) : Type 0 where
  pub serv_port : ℕ
  pub window_size : ℕ
  pub seed : ℕ
  pub loss_prob : F

pub record ClientParameters (A : Type 0) : Type 0 where
  pub in_add : A
  pub serv_port : ℕ
  pub cli_port : ℕ
  pub filename : List ℕ
  pub window_size : ℕ

module _ (f : FloatLibrary) where
  open f use {Float, is_float, stof, below_zero, above_one}

  -- The conversions of the four lines. `none` is `*error`.
  unfoldable pub convert_server :
      (port window seed loss : List ℕ) → Result (Option (ServerParameters Float))
  convert_server port window seed loss = stoi port and_then λ serv_port.
      stoul window and_then λ window_size. stoul seed and_then λ seed.
      stof loss and_then λ loss_prob. value (
        if below_zero loss_prob || above_one loss_prob
        then none
        else some (record {
          serv_port = serv_port;
          window_size = window_size;
          seed = seed;
          loss_prob = loss_prob;
        }))

  unfoldable pub server_lines : List (List ℕ) → Result (Option (ServerParameters Float))
  server_lines (port ∷ window ∷ seed ∷ loss ∷ []) =
      if valid_digit port && valid_digit window && valid_digit seed && is_float loss
      then convert_server port window seed loss
      else value none
  server_lines lines = value none

  -- The bytes of the file, or `none` where it cannot be opened.
  unfoldable pub read_server_parameters : Option (List ℕ) → Result (Option (ServerParameters Float))
  read_server_parameters file = server_lines (read_lines file)

module _ {A : Type 0} (get_host_by_name : List ℕ → Option A) where
  -- The conversions of the five lines. A host that is not found is a null pointer, which is read.
  unfoldable pub convert_client :
      (host server client name window : List ℕ) → Option (Result (Option (ClientParameters A)))
  convert_client host server client name window = get_host_by_name host >>= λ in_add. some (
      stoi server and_then λ serv_port. stoi client and_then λ cli_port.
      stoul window and_then λ window_size. value (
        some (record {
          in_add = in_add;
          serv_port = serv_port;
          cli_port = cli_port;
          filename = trim name;
          window_size = window_size;
        })))

  unfoldable pub client_lines : List (List ℕ) → Option (Result (Option (ClientParameters A)))
  client_lines (host ∷ server ∷ client ∷ name ∷ window ∷ []) =
      if valid_digit server && valid_digit client
      then (is_valid_ip host >>= λ valid.
          if valid && valid_digit window
          then convert_client host server client name window
          else some (value none))
      else some (value none)
  client_lines lines = some (value none)

  unfoldable pub read_client_parameters :
      Option (List ℕ) → Option (Result (Option (ClientParameters A)))
  read_client_parameters file = client_lines (read_lines file)
