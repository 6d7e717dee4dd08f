-- ===== src/Store.antt =====
-- internal/store/tuple_store.go and models.go: tuples in PostgreSQL. The database is a parameter, a
-- `Postgres` of Store/Database.antt; a statement that fails gives `none` and changes nothing.
pub mod Query
pub mod Codec
pub mod Database
pub mod RoundTrip
pub mod Writes
pub mod Filters
pub mod Admin
use tuplespace.Base.{
  ℕ, or_fail, suc, ◌+◌, Bool, true, false, Option, none, some, List, [], ◌∷◌, Text, codes, text_eq,
  length, if◌then◌else◌, ℤ, pos, Result, ok, err, ◌>>=◌, wrap,
}
use tuplespace.Types.{
  Any, string, bool, int64, TupleField, Tuple, TemplateField, Template, FieldError, type_string,
  type_int, type_bool, normalize_tuple,
}
use Query.{QueryError, build_candidate_query}
use Codec.{Payload, marshal, unmarshal}
use Database.{Postgres, Columns, RawTuple}

-- The errors of the package, by their message; `panicked` is a type assertion that fails.
pub data Error : Type 0 where
  insert_tuple_failed query_failed panicked : Error
  insert_field_failed : ℕ → Error
  delete_failed : ℤ → Error
  unsupported_field_type : Text → Error
  bad_query : QueryError → Error
  normalize_stored : FieldError → Error
  list_failed count_failed get_failed spaces_failed delete_many_failed : Error

pub record StoredTuple : Type 0 where
  pub id : ℤ
  pub space : Text
  pub tuple : Tuple

unfoldable pub decode_tuple : Payload → Result Error Tuple
decode_tuple payload = wrap normalize_stored (normalize_tuple (unmarshal payload))

-- field.Value.(string), field.Value.(int64) and field.Value.(bool)
string_column : Any → Result Error Columns
string_column (string s) = ok (record { text_val = some s; int_val = none; bool_val = none })
string_column _ = err panicked

int_column : Any → Result Error Columns
int_column (int64 z) = ok (record { text_val = none; int_val = some z; bool_val = none })
int_column _ = err panicked

bool_column : Any → Result Error Columns
bool_column (bool b) = ok (record { text_val = none; int_val = none; bool_val = some b })
bool_column _ = err panicked

unfoldable pub columns : TupleField → Result Error Columns
unfolding string_column int_column bool_column
columns f =
    if text_eq f.type type_string
    then string_column f.value
    else if text_eq f.type type_int
    then int_column f.value
    else if text_eq f.type type_bool
    then bool_column f.value
    else err (unsupported_field_type f.type)

unfoldable pub decode_rows : List RawTuple → Result Error (List StoredTuple)
decode_rows [] = ok []
decode_rows (r ∷ rs) = do
  tuple ← decode_tuple r.payload
  rest ← decode_rows rs
  ok (record { id = r.id; space = r.space; tuple = tuple } ∷ rest)

module _ (pg : Postgres) where
  open pg use {Db, query_rows, insert_row, insert_field_row, delete_by_id}

  -- The loop over the fields of the new tuple.
  unfoldable pub insert_fields : ℤ → ℕ → List TupleField → Db → Result Error Db
  insert_fields id i [] db = ok db
  insert_fields id i (f ∷ fs) db = do
    c ← columns f
    db' ← or_fail (insert_field_failed i) (insert_field_row db id i f.type c)
    insert_fields id (i + 1) fs db'

  unfoldable pub insert_tuple : Text → Tuple → Db → Result Error (ℤ × Db)
  unfolding insert_fields
  insert_tuple space tuple db = do
    payload ← or_fail panicked (marshal tuple)
    (id, db') ← or_fail insert_tuple_failed (insert_row db space (length tuple.fields) payload)
    db'' ← insert_fields id 0 tuple.fields db'
    ok (id, db'')

  unfoldable pub query_candidates : Db → Text × List Any → Result Error (List StoredTuple)
  unfolding decode_rows
  query_candidates db (sql, args) = do
    rows ← or_fail query_failed (query_rows db sql args)
    decode_rows rows

  unfoldable pub find_candidates : Text → Template → ℤ → Db → Result Error (List StoredTuple)
  find_candidates space template limit db = do
    q ← wrap bad_query (build_candidate_query space template limit false)
    query_candidates db q

  unfoldable pub lock_candidates_for_consume :
      Text → Template → ℤ → Db → Result Error (List StoredTuple)
  lock_candidates_for_consume space template limit db = do
    q ← wrap bad_query (build_candidate_query space template limit true)
    query_candidates db q

  unfoldable pub delete_tuple : ℤ → Db → Result Error Db
  delete_tuple id db = do (n, db') ← or_fail (delete_failed id) (delete_by_id db id); ok db'
