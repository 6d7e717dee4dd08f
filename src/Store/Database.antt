-- ===== src/Store/Database.antt =====
-- What the store uses of PostgreSQL, as a record of statements: each takes the contents of the
-- database and gives `none` if it fails. The texts of the fixed statements are those of
-- internal/store; the candidate and filter queries come with their text and arguments.
use tuplespace.Base.{ℕ, Bool, Option, List, Text, ℤ}
use tuplespace.Types.{Any}
use tuplespace.Store.Codec.{Payload}

-- text_val, int_val and bool_val of a row of tuple_fields
pub record Columns : Type 0 where
  pub text_val : Option Text
  pub int_val : Option ℤ
  pub bool_val : Option Bool

-- id, space, fields_json
pub record RawTuple : Type 0 where
  pub id : ℤ
  pub space : Text
  pub payload : Payload

-- id, space, arity, created_at, fields_json; a time is a number of microseconds.
pub record RawRecord : Type 0 where
  pub id : ℤ
  pub space : Text
  pub arity : ℕ
  pub created_at : ℕ
  pub payload : Payload

-- A row of the query of `ListSpaces`.
pub record SpaceSummary : Type 0 where
  pub space : Text
  pub tuple_count : ℕ
  pub oldest_tuple_at : Option ℕ
  pub newest_tuple_at : Option ℕ

-- An argument of the statements of the administration.
pub data Arg : Type 0 where
  text_arg : Text → Arg
  int_arg : ℤ → Arg
  time_arg : ℕ → Arg

pub record Postgres : Type 1 where
  pub Db : Type 0
  -- A transaction works on a copy, which `commit` puts in the place of the contents.
  pub begin : Db → Option Db
  pub commit : (before tx : Db) → Option Db
  pub query_rows : Db → Text → List Any → Option (List RawTuple)
  pub insert_row : Db → Text → ℕ → Payload → Option (ℤ × Db)
  pub insert_field_row : Db → ℤ → ℕ → Text → Columns → Option Db
  pub pg_notify : Db → Text → Option Db
  -- With the number of rows affected.
  pub delete_by_id : Db → ℤ → Option (ℕ × Db)
  pub delete_where : Db → Text → List Arg → Option (ℕ × Db)
  pub query_records : Db → Text → List Arg → Option (List RawRecord)
  pub query_count : Db → Text → List Arg → Option ℕ
  pub query_by_id : Db → ℤ → Option (Option RawRecord)
  pub query_spaces : Db → Option (List SpaceSummary)
  -- The names of the tables, and of the indexes, of the current schema.
  pub query_tables : Db → Option (List Text)
  pub query_indexes : Db → Option (List Text)
