-- ===== src/Tests/Tables.antt =====
-- PostgreSQL on the tables: a small database that answers the candidate query from its arguments.
use tuplespace.Base.{
  ℕ, suc, ◌+◌, ◌≤◌, ◌≡◌, refl, sym, ap, ◌∙◌, Bool, true, false, some, none, List, [], ◌∷◌, ◌++◌,
  map, Text, length, keep, All, ℤ, pos, negsuc, int_eq, some-injective, arith, if◌then◌else◌,
}
use tuplespace.Types.{Any, string, int}
use tuplespace.Store.Database.{Postgres}
use tuplespace.Relational.{TupleRow, FieldRow, Tables, delete_row, raw_row}
use tuplespace.Relational.Select.{Join, Select, join_args, select_args, evaluate, selected, selects}
use tuplespace.Relational.Laws.{Relational}

abbrev nat_of : ℤ → ℕ
nat_of (pos n) = n
nat_of (negsuc n) = 0

abbrev row_sum : List TupleRow → ℕ
row_sum [] = 0
row_sum (r ∷ rs) = nat_of r.id + row_sum rs

abbrev field_sum : List FieldRow → ℕ
field_sum [] = 0
field_sum (f ∷ fs) = nat_of f.tuple_id + field_sum fs

-- A number that no row has.
abbrev fresh : Tables → ℤ
fresh t = pos (suc (row_sum t.tuples + field_sum t.fields))

abbrev text_of : Any → Text
text_of (string s) = s
text_of _ = []

abbrev int_of : Any → ℤ
int_of (int z) = z
int_of _ = pos 0

abbrev is_string : Any → Bool
is_string (string s) = true
is_string _ = false

abbrev nothing : Select
nothing = record { joins = []; space = []; arity = 0; limit = pos 0; locked = false }

-- Three arguments for each join, and the three of the conditions behind them.
abbrev asked_for : List Any → Select
asked_for (a ∷ b ∷ c ∷ rest) =
    let s = asked_for rest in
    if is_string a
    then record {
      joins = [];
      space = text_of a;
      arity = nat_of (int_of b);
      limit = int_of c;
      locked = false;
    }
    else record s {
      joins = record { pos = nat_of (int_of a); type = text_of b; value = c } ∷ s.joins;
    }
asked_for _ = nothing

abbrev pub tables : Postgres
tables = record {
  Db = Tables;
  begin = λ db. some db;
  commit = λ before tx. some tx;
  query_rows = λ db sql args. some (map raw_row (evaluate (asked_for args) db));
  insert_row = λ db space arity payload. some (
    fresh db,
    record db {
      tuples =
          db.tuples
          ++ record { id = fresh db; space = space; arity = arity; payload = payload } ∷ [];
    },
  );
  insert_field_row = λ db id i type columns. some (record db {
    fields = db.fields ++ record { tuple_id = id; pos = i; type = type; columns = columns } ∷ [];
  });
  pg_notify = λ db channel. some db;
  delete_by_id = λ db i. some (length (keep (λ r. int_eq r.id i) db.tuples), delete_row i db);
  delete_where = λ db sql args. none;
  query_records = λ db sql args. none;
  query_count = λ db sql args. none;
  query_by_id = λ db i. none;
  query_spaces = λ db. none;
  query_tables = λ db. none;
  query_indexes = λ db. none;
}

asked_for-join_args :
    (js : List Join) (space : Text) (arity : ℕ) (limit : ℤ)
    → asked_for (join_args js (string space ∷ int (pos arity) ∷ int limit ∷ []))
      ≡ record { joins = js; space = space; arity = arity; limit = limit; locked = false }
unfolding join_args
asked_for-join_args [] space arity limit = refl
asked_for-join_args (j ∷ js) space arity limit = rw (asked_for-join_args js space arity limit)

selected_unlocked :
    (s : Select) (fields : List FieldRow) (rs : List TupleRow)
    → selected (record s { locked = false }) fields rs ≡ selected s fields rs
unfolding selected selects
selected_unlocked s fields [] = refl
selected_unlocked s fields (r ∷ rs) = rw (selected_unlocked s fields rs)

pub answered : (s : Select) (db : Tables) → evaluate (asked_for (select_args s)) db ≡ evaluate s db
unfolding evaluate select_args
answered s db =
    rw (asked_for-join_args s.joins s.space s.arity s.limit)
      (rw (selected_unlocked s db.fields db.tuples))

apart : (z : ℤ) (n : ℕ) → nat_of z ≤ n → int_eq z (pos (suc n)) ≡ false
unfolding int_eq
apart (pos k) n h = ground arith
apart (negsuc k) n h = ground arith

pub rows_below :
    (rs : List TupleRow) (n : ℕ) → row_sum rs ≤ n → All (λ r. int_eq r.id (pos (suc n)) ≡ false) rs
rows_below [] n h = tt
rows_below (r ∷ rs) n h = (apart r.id n (omega arith), rows_below rs n (omega arith))

pub fields_below :
    (fs : List FieldRow) (n : ℕ)
    → field_sum fs ≤ n
    → All (λ f. int_eq f.tuple_id (pos (suc n)) ≡ false) fs
fields_below [] n h = tt
fields_below (f ∷ fs) n h = (apart f.tuple_id n (omega arith), fields_below fs n (omega arith))

unfoldable pub tables-Relational : Relational tables
tables-Relational = record {
  view = λ db. db;
  view-begin = λ db tx h. sym (some-injective db tx h);
  view-commit = λ db tx db' h. sym (some-injective tx db' h);
  view-notify = λ db db' channel h. sym (some-injective db db' h);
  view-insert = λ db db' space arity payload id h.
      let same = some-injective _ (id, db') h in
      let id-fresh : fresh db ≡ id = ap (λ p. p.0) same in
      (
        sym (ap (λ p. p.1) same)
            ∙ ap
                (λ k. record db {
                  tuples =
                      db.tuples
                      ++ record { id = k; space = space; arity = arity; payload = payload } ∷ [];
                })
                id-fresh,
        rw (← id-fresh) (rows_below db.tuples _ (omega arith)),
        rw (← id-fresh) (fields_below db.fields _ (omega arith)),
      );
  view-insert_field = λ db db' id i type columns h. sym (some-injective _ db' h);
  view-delete = λ db db' id n h. sym (ap (λ p. p.1) (some-injective _ (n, db') h));
  rows = λ s db found h. sym (some-injective _ found h) ∙ ap (map raw_row) (answered s db);
}
