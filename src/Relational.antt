-- ===== src/Relational.antt =====
-- What PostgreSQL keeps and what the statements of internal/store do to it: the two tables of
-- migrations/001_init_tuplespace.sql, and the SELECT with joins that the candidate query is.
pub mod Select
pub mod Laws
pub mod Lists
pub mod Represents
pub mod Candidates
pub mod Changes
use tuplespace.Base.{ℕ, Bool, not, List, Text, keep, ℤ, int_eq}
use tuplespace.Store.Codec.{Payload}
use tuplespace.Store.Database.{Columns, RawTuple}

-- A row of `tuples`, without the time of its creation.
pub record TupleRow : Type 0 where
  pub id : ℤ
  pub space : Text
  pub arity : ℕ
  pub payload : Payload

-- A row of `tuple_fields`.
pub record FieldRow : Type 0 where
  pub tuple_id : ℤ
  pub pos : ℕ
  pub type : Text
  pub columns : Columns

-- The rows of `tuples` stand in the order of their ids: BIGSERIAL counts upwards.
pub record Tables : Type 0 where
  pub tuples : List TupleRow
  pub fields : List FieldRow

-- DELETE FROM tuples WHERE id = $1, with ON DELETE CASCADE on the fields
unfoldable pub delete_row : ℤ → Tables → Tables
delete_row id t = record {
  tuples = keep (λ r. not (int_eq r.id id)) t.tuples;
  fields = keep (λ f. not (int_eq f.tuple_id id)) t.fields;
}

abbrev pub raw_row : TupleRow → RawTuple
raw_row r = record { id = r.id; space = r.space; payload = r.payload }
