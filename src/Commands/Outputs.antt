-- ===== src/Commands/Outputs.antt =====
-- Rows that a command prints: glazed's processor is a parameter, which may refuse a row.
use tuplespace.Base.{ℕ, Bool, Option, none, some, List, [], ◌∷◌, Text, Result, ok, err}
use tuplespace.Store.Database.{SpaceSummary}
use tuplespace.Store.Admin.{TupleRecord}
use tuplespace.Service.Admin.{StatsSnapshot, DeleteResult, NotifyTestResult}
use tuplespace.Service.Schema.{SchemaSnapshot}
use tuplespace.Service.Settings.{ConfigSnapshot}
use tuplespace.Service.Waiters.{WaiterInfo}
use tuplespace.Client.Requests
use tuplespace.Client.Requests.{OutResponse, ReadResponse}
use tuplespace.Commands.Inputs

-- A row by what its columns show.
pub data Row : Type 0 where
  out_row : ℕ → OutResponse → Row
  read_row : ℕ → Text → ReadResponse → Row
  tuple_row : TupleRecord → Row
  space_row : SpaceSummary → Row
  waiter_row : WaiterInfo → Row
  stats_row : StatsSnapshot → Row
  config_row : ConfigSnapshot → Row
  schema_row : SchemaSnapshot → Row
  health_row : Bool → Text → Row
  purge_row : ℕ → Row
  delete_row : DeleteResult → Row
  notify_test_row : NotifyTestResult → Row

pub data Error : Type 0 where
  bad_input : Inputs.Error → Error
  bad_time : Text → Error
  request_failed : Requests.Error → Error
  row_failed : Error

-- What a command leaves: the server with the network, and the processor.
pub record Session (W P : Type 0) : Type 0 where
  pub server : W
  pub rows : P

abbrev pub Finished : Type 0 → Type 0 → Type 0
Finished W P = Result Error (Unit {0}) × Session W P

module _ {W P : Type 0} (add_row : Row → P → Option P) where
  -- gp.AddRow, and what follows it
  row_added : Session W P → (Session W P → Finished W P) → Option P → Finished W P
  row_added w next none = (err row_failed, w)
  row_added w next (some rows) = next (record w { rows = rows })

  unfoldable pub print_row : Row → (Session W P → Finished W P) → Session W P → Finished W P
  unfolding row_added
  print_row row next w = row_added w next (add_row row w.rows)

  abbrev pub finished : Session W P → Finished W P
  finished w = (ok tt, w)

  -- The loop over the rows of an answer.
  unfoldable pub print_rows : List Row → Session W P → Finished W P
  unfolding print_row
  print_rows [] w = (ok tt, w)
  print_rows (r ∷ rs) w = print_row r (λ w'. print_rows rs w') w

  -- The answer of a request, and what is done with it.
  unfoldable pub after_answer :
      {A : Type 0}
      → (A → Session W P → Finished W P)
      → P
      → Result Requests.Error A × W
      → Finished W P
  after_answer next rows (err e, server) =
      (err (request_failed e), record { server = server; rows = rows })
  after_answer next rows (ok a, server) = next a (record { server = server; rows = rows })
