-- ===== src/Tests/Database.antt =====
-- A small database in the place of PostgreSQL: the rows of `tuples` in order, all of them candidates.
use tuplespace.Base.{
  ℕ, suc, ◌≡◌, refl, inl, inr, ap, Bool, true, false, not, none, some, List, [], ◌∷◌, ◌++◌, codes,
  length, keep, ltb, ℤ, pos, int_eq, arith, Bool-cases,
}
use tuplespace.Store.Database.{Postgres, RawTuple}
use tuplespace.Service.Once.{Faithful, has_id, without_id}

abbrev pub Rows : Type 0
Rows = List RawTuple

abbrev row_ids : Rows → List ℤ
row_ids [] = []
row_ids (r ∷ rs) = r.id ∷ row_ids rs

abbrev rows_without : ℤ → Rows → Rows
rows_without i = keep (λ r. not (int_eq r.id i))

abbrev count_of : Bool → ℕ
count_of true = 1
count_of false = 0

abbrev pub rows : Postgres
rows = record {
  Db = Rows;
  begin = λ db. some db;
  commit = λ before tx. some tx;
  query_rows = λ db sql args. some db;
  insert_row = λ db space arity payload. some (
    pos (suc (length db)),
    db ++ record { id = pos (suc (length db)); space = space; payload = payload } ∷ [],
  );
  insert_field_row = λ db id i type columns. some db;
  pg_notify = λ db channel. some db;
  delete_by_id = λ db i. some (count_of (has_id i (row_ids db)), rows_without i db);
  delete_where = λ db sql args. some (length db, []);
  query_records = λ db sql args. some [];
  query_count = λ db sql args. some (length db);
  query_by_id = λ db i. some none;
  query_spaces = λ db. some [];
  query_tables = λ db. some (codes "tuples" ∷ []);
  query_indexes = λ db. some [];
}

row_ids-rows_without : (i : ℤ) (db : Rows) → row_ids (rows_without i db) ≡ without_id i (row_ids db)
row_ids-rows_without i [] = refl
row_ids-rows_without i (r ∷ db) = elim (Bool-cases (int_eq r.id i)) [
  | inl e ↦ rw e (row_ids-rows_without i db)
  | inr e ↦ rw e (ap (◌∷◌ r.id) (row_ids-rows_without i db))
]

counted : (i : ℤ) (db : Rows) → ltb 0 (count_of (has_id i (row_ids db))) ≡ has_id i (row_ids db)
counted i db = elim (Bool-cases (has_id i (row_ids db))) [ inl e ↦ rw e refl | inr e ↦ rw e refl ]

same_rows : (a b : Rows) → some a ≡ some b → row_ids b ≡ row_ids a
same_rows a b h = let e : a ≡ b = cc in rw e refl

deleted_rows :
    (db db' : Rows) (i : ℤ) (n : ℕ)
    → rows.delete_by_id db i ≡ some (n, db')
    → (ltb 0 n ≡ has_id i (row_ids db)) × (row_ids db' ≡ without_id i (row_ids db))
deleted_rows db db' i n h =
    let e : count_of (has_id i (row_ids db)) ≡ n = ground arith in
    let e' : rows_without i db ≡ db' = ground arith in
    (rw (← e) (counted i db), rw (← e') (row_ids-rows_without i db))

pub rows-Faithful : Faithful rows
rows-Faithful = record {
  keys = row_ids;
  keys-begin = λ db tx h. same_rows db tx h;
  keys-commit = λ db tx db' h. same_rows tx db' h;
  keys-delete = λ db db' i n h. (deleted_rows db db' i n h).1;
  counts = λ db db' i n h. (deleted_rows db db' i n h).0;
}
