-- ===== src/Relational/Laws.antt =====
-- What the statements do, as laws on a `Postgres`: the tables that its contents stand for, and what
-- each statement that succeeds does to them.
use tuplespace.Base.{ℕ, ◌≡◌, false, some, List, [], ◌∷◌, ◌++◌, map, All, Text, ℤ, int_eq}
use tuplespace.Store.Codec.{Payload}
use tuplespace.Store.Database.{Postgres, Columns, RawTuple}
use tuplespace.Relational.{Tables, delete_row, raw_row}
use tuplespace.Relational.Select.{Select, print_select, select_args, evaluate}

pub record Relational (pg : Postgres) : Type 0 where
  pub view : pg.Db → Tables
  -- A transaction starts from the contents, and a commit puts its own in their place.
  pub view-begin : (db tx : pg.Db) → pg.begin db ≡ some tx → view tx ≡ view db
  pub view-commit : (db tx db' : pg.Db) → pg.commit db tx ≡ some db' → view db' ≡ view tx
  pub view-notify :
      (db db' : pg.Db) (channel : Text) → pg.pg_notify db channel ≡ some db' → view db' ≡ view db
  -- INSERT INTO tuples … RETURNING id: the new id is that of no row (PRIMARY KEY), nor does a field
  -- name it (REFERENCES).
  pub view-insert :
      (db db' : pg.Db) (space : Text) (arity : ℕ) (payload : Payload) (id : ℤ)
      → pg.insert_row db space arity payload ≡ some (id, db')
      → (view db' ≡ record (view db) {
        tuples =
            (view db).tuples
            ++ record { id = id; space = space; arity = arity; payload = payload } ∷ [];
      })
        × All (λ r. int_eq r.id id ≡ false) (view db).tuples
        × All (λ f. int_eq f.tuple_id id ≡ false) (view db).fields
  pub view-insert_field :
      (db db' : pg.Db) (id : ℤ) (i : ℕ) (type : Text) (columns : Columns)
      → pg.insert_field_row db id i type columns ≡ some db'
      → view db' ≡ record (view db) {
        fields =
            (view db).fields
            ++ record { tuple_id = id; pos = i; type = type; columns = columns } ∷ [];
      }
  pub view-delete :
      (db db' : pg.Db) (id : ℤ) (n : ℕ)
      → pg.delete_by_id db id ≡ some (n, db')
      → view db' ≡ delete_row id (view db)
  -- A SELECT gives the rows that it stands for; no other transaction holds a lock meanwhile.
  pub rows :
      (s : Select) (db : pg.Db) (found : List RawTuple)
      → pg.query_rows db (print_select s) (select_args s) ≡ some found
      → found ≡ map raw_row (evaluate s (view db))
