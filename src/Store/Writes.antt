-- ===== src/Store/Writes.antt =====
-- `InsertTuple` on a normalised tuple (internal/store/tuple_store.go): its type assertions hold.
use tuplespace.Base.{
  ℕ, ◌+◌, ◌≡◌, refl, Bool, true, false, Option, none, some, List, [], ◌∷◌, Text, ℤ, All, Result, ok,
  err, ◌>>=◌, or_fail, length,
}
use tuplespace.Types.{Any, nil, string, bool, int64, TupleField, Tuple}
use tuplespace.Types.Normal.{IsNormal}
use tuplespace.Types.Fields.{IsNormalField, IsNormalTuple}
use tuplespace.Store.{
  Error, panicked, unsupported_field_type, insert_fields, insert_tuple, insert_tuple_failed,
  insert_field_failed,
}
use tuplespace.Store.Codec.{Payload, Json, marshal, marshal_fields, marshal_value}
use tuplespace.Store.Database.{Postgres, Columns}
use tuplespace.Store.RoundTrip.{columns-Holds}

-- A type assertion that fails, or a type that no column is for.
abbrev pub is_mistake : Error → Bool
is_mistake panicked = true
is_mistake (unsupported_field_type t) = true
is_mistake _ = false

-- A statement may fail, but the code makes no mistake.
abbrev pub NoMistake {ℓ} : {A : Type ℓ} → Result Error A → Type 0
NoMistake (ok a) = Unit
NoMistake (err e) = is_mistake e ≡ false

marshal_value_normal : (t : Text) (v : Any) → IsNormal t v → (j : Json) × (marshal_value v ≡ some j)
unfolding marshal_value
marshal_value_normal t (string s) n = (_, refl)
marshal_value_normal t (int64 z) n = (_, refl)
marshal_value_normal t (bool b) n = (_, refl)
marshal_value_normal t nil n = absurd n
marshal_value_normal t _ n = absurd n

marshal_fields_normal :
    (fs : List TupleField) → All IsNormalField fs → (p : Payload) × (marshal_fields fs ≡ some p)
unfolding marshal_fields
marshal_fields_normal [] h = ([], refl)
marshal_fields_normal (f ∷ fs) (n, h) =
    let (j, e) = marshal_value_normal f.type f.value n in
    let (p, rest) = marshal_fields_normal fs h in
    (record { type = f.type; value = j } ∷ p, rw (e, rest) refl)

module _ (pg : Postgres) where
  open pg use {Db}

  field_written :
      (id : ℤ) (i : ℕ) (f : TupleField) (fs : List TupleField) (c : Columns) (o : Option Db)
      → ((db : Db) → NoMistake (insert_fields pg id (i + 1) fs db))
      → NoMistake (or_fail (insert_field_failed i) o >>= λ db'. insert_fields pg id (i + 1) fs db')
  field_written id i f fs c none k = refl
  field_written id i f fs c (some db') k = k db'

  insert_fields-NoMistake :
      (id : ℤ) (i : ℕ) (fs : List TupleField) (db : Db)
      → All IsNormalField fs
      → NoMistake (insert_fields pg id i fs db)
  unfolding insert_fields
  insert_fields-NoMistake id i [] db h = tt
  insert_fields-NoMistake id i (f ∷ fs) db (n, h) =
      let (c, e, holds) = columns-Holds f n in
      rw e (
        field_written id i f fs c (pg.insert_field_row db id i f.type c)
          (λ db'. insert_fields-NoMistake id (i + 1) fs db' h))

  with_id :
      (id : ℤ) (r : Result Error Db)
      → NoMistake r
      → NoMistake {A = ℤ × Db} (r >>= λ db'. ok (id, db'))
  with_id id (ok db') h = tt
  with_id id (err e) h = h

  row_written :
      (t : Tuple) (o : Option (ℤ × Db))
      → IsNormalTuple t
      → NoMistake {A = ℤ × Db} (
          or_fail insert_tuple_failed o >>= λ (id, db').
          insert_fields pg id 0 t.fields db' >>= λ db''. ok (id, db''))
  row_written t none h = refl
  row_written t (some (id, db')) h =
      with_id id (insert_fields pg id 0 t.fields db') (insert_fields-NoMistake id 0 t.fields db' h)

  -- Writing a normalised tuple fails only where a statement of PostgreSQL fails: every type assertion
  -- holds and every field has a column.
  pub insert_tuple-NoMistake :
      (space : Text) (t : Tuple) (db : Db)
      → IsNormalTuple t
      → NoMistake (insert_tuple pg space t db)
  unfolding insert_tuple marshal
  insert_tuple-NoMistake space t db h =
      let (p, e) = marshal_fields_normal t.fields h in
      rw e (row_written t (pg.insert_row db space (length t.fields) p) h)
