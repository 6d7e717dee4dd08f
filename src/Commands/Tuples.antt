-- ===== src/Commands/Tuples.antt =====
-- The commands `tuple out`, `tuple rd` and `tuple in` (cmd/tuplespacectl/cmds/tuple).
pub mod Sent
use tuplespace.Base.{ℕ, ◌+◌, Option, List, [], ◌∷◌, Text, ℤ, pos, Result, ok, err}
use tuplespace.Types.{Tuple, Template}
use tuplespace.Client.{timeout_for_wait_ms, client_timeout, trim_right_slash, default_http_timeout}
use tuplespace.Client.Requests
use tuplespace.Client.Requests.{Http, Decoders, out, rd, take_in}
use tuplespace.Commands.Inputs
use tuplespace.Commands.Inputs.{load_tuple_inputs, load_template_inputs}
use tuplespace.Commands.Outputs.{
  Row, out_row, read_row, Error, bad_input, Session, Finished, print_row, after_answer,
}

pub record OutSettings : Type 0 where
  pub server_url : Text
  pub space : Text
  pub tuple_file : Text
  pub tuple_spec : Text
  pub tuple_specs : List Text

pub record ReadSettings : Type 0 where
  pub server_url : Text
  pub space : Text
  pub template_json_file : Text
  pub template_spec : Text
  pub template_specs : List Text
  pub wait_ms : ℤ

-- `connect` makes a client for a base URL with a timeout.
module _ {W : Type 0} (connect : Text → ℤ → Http W) where
  -- client.NewWithTimeout
  unfoldable pub new_with_timeout : Text → ℤ → Http W
  new_with_timeout url timeout = connect (trim_right_slash url) (client_timeout timeout)

  -- client.New
  unfoldable pub new : Text → Http W
  new url = new_with_timeout url (pos default_http_timeout)

module _ {W P : Type 0} (add_row : Row → P → Option P) where
  -- The loop over the inputs, from number `i` on: a request and a row for each.
  unfoldable pub send_each :
      {A B : Type 0}
      → (A → W → Result Requests.Error B × W)
      → (ℕ → B → Row)
      → ℕ
      → List A
      → Session W P
      → Finished W P
  unfolding print_row after_answer
  send_each ask row i [] w = (ok tt, w)
  send_each ask row i (x ∷ xs) w =
      after_answer add_row (λ b. print_row add_row (row i b) (send_each ask row (i + 1) xs)) w.rows
        (ask x w.server)

  after_inputs :
      {A B : Type 0}
      → (A → W → Result Requests.Error B × W)
      → (ℕ → B → Row)
      → Session W P
      → Result Inputs.Error (List A)
      → Finished W P
  unfolding send_each
  after_inputs ask row w (err e) = (err (bad_input e), w)
  after_inputs ask row w (ok xs) = send_each ask row 0 xs w

  module _ (connect : Text → ℤ → Http W) (json : Decoders) (read_file : Text → Option Text) where
    unfoldable pub out_command : (Text → Option Tuple) → OutSettings → Session W P → Finished W P
    unfolding after_inputs
    out_command decode s w =
        after_inputs (out (new connect s.server_url) json s.space) out_row w
          (load_tuple_inputs read_file decode s.tuple_file s.tuple_spec s.tuple_specs)

    unfoldable pub rd_command : (Text → Option Template) → ReadSettings → Session W P → Finished W P
    unfolding after_inputs
    rd_command decode s w =
        let http = new_with_timeout connect s.server_url (timeout_for_wait_ms s.wait_ms) in
        after_inputs (λ t. rd http json s.space t s.wait_ms) (λ i r. read_row i s.space r) w
          (load_template_inputs read_file decode s.template_json_file s.template_spec
            s.template_specs)

    unfoldable pub in_command : (Text → Option Template) → ReadSettings → Session W P → Finished W P
    unfolding after_inputs
    in_command decode s w =
        let http = new_with_timeout connect s.server_url (timeout_for_wait_ms s.wait_ms) in
        after_inputs (λ t. take_in http json s.space t s.wait_ms) (λ i r. read_row i s.space r) w
          (load_template_inputs read_file decode s.template_json_file s.template_spec
            s.template_specs)
