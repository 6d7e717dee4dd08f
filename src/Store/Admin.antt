-- ===== src/Store/Admin.antt =====
-- The administration of the store (internal/store/admin_store.go). Line breaks and tabs in the texts
-- of its statements are written as one blank.
use tuplespace.Base.{
  ℕ, or_fail, Bool, true, false, Option, none, some, List, [], ◌∷◌, Text, codes, ltb, ℤ, Result, ok,
  ◌>>=◌,
}
use tuplespace.Types.{Tuple}
use tuplespace.Store.{
  Error, decode_tuple, list_failed, count_failed, get_failed, spaces_failed, delete_many_failed,
  delete_failed,
}
use tuplespace.Store.Database.{Postgres, RawRecord, SpaceSummary}
use tuplespace.Store.Filters.{TupleFilter, build_tuple_filter_query, build_tuple_delete_query}

pub record TupleRecord : Type 0 where
  pub id : ℤ
  pub space : Text
  pub arity : ℕ
  pub created_at : ℕ
  pub tuple : Tuple

-- What follows the scan of the columns.
scan_admin_tuple_record : RawRecord → Result Error TupleRecord
scan_admin_tuple_record r = do
  tuple ← decode_tuple r.payload
  ok (record {
    id = r.id;
    space = r.space;
    arity = r.arity;
    created_at = r.created_at;
    tuple = tuple;
  })

scan_records : List RawRecord → Result Error (List TupleRecord)
unfolding scan_admin_tuple_record
scan_records [] = ok []
scan_records (r ∷ rs) = do
  scanned ← scan_admin_tuple_record r
  rest ← scan_records rs
  ok (scanned ∷ rest)

-- pgx.ErrNoRows is not an error.
scan_found : Option RawRecord → Result Error (Option TupleRecord)
unfolding scan_admin_tuple_record
scan_found none = ok none
scan_found (some r) = do scanned ← scan_admin_tuple_record r; ok (some scanned)

module _ (pg : Postgres) where
  open pg use {
    Db, query_records, query_count, query_by_id, query_spaces, delete_by_id, delete_where,
  }

  unfoldable pub list_spaces : Db → Result Error (List SpaceSummary)
  list_spaces db = or_fail spaces_failed (query_spaces db)

  unfoldable pub list_tuples : TupleFilter → Db → Result Error (List TupleRecord)
  unfolding scan_records
  list_tuples filter db = do
    let (sql, args) =
        build_tuple_filter_query
          (codes "SELECT id, space, arity, created_at, fields_json FROM tuples") filter true
    rows ← or_fail list_failed (query_records db sql args)
    scan_records rows

  unfoldable pub count_tuples : TupleFilter → Db → Result Error ℕ
  count_tuples filter db = do
    let (sql, args) = build_tuple_filter_query (codes "SELECT COUNT(*) FROM tuples") filter false
    or_fail count_failed (query_count db sql args)

  unfoldable pub get_tuple_by_id : ℤ → Db → Result Error (Option TupleRecord)
  unfolding scan_found
  get_tuple_by_id id db = do row ← or_fail get_failed (query_by_id db id); scan_found row

  -- With whether a row was affected.
  unfoldable pub delete_tuple_by_id : ℤ → Db → Result Error (Bool × Db)
  delete_tuple_by_id id db = do
    (n, db') ← or_fail (delete_failed id) (delete_by_id db id)
    ok (ltb 0 n, db')

  unfoldable pub delete_tuples : TupleFilter → Db → Result Error (ℕ × Db)
  delete_tuples filter db = do
    let (sql, args) = build_tuple_delete_query filter
    or_fail delete_many_failed (delete_where db sql args)
