-- ===== src/Relational/Represents.antt =====
-- The tuples that the tables hold: each row of `tuples` has the tuple in its JSON, and one row of
-- `tuple_fields` for each of its fields.
use tuplespace.Base.{
  ℕ, ◌+◌, ◌≡◌, refl, sym, ap, ◌∙◌, none, some, List, [], ◌∷◌, length, keep, All, Zip, map, ℤ,
  int_eq, ok, some-injective,
}
use tuplespace.Types.{Any, nil, string, bool, int64, TupleField}
use tuplespace.Types.Fields.{IsNormalField}
use tuplespace.Store.{StoredTuple, columns, decode_tuple, decode_rows}
use tuplespace.Store.Codec.{marshal}
use tuplespace.Store.Database.{Columns}
use tuplespace.Store.RoundTrip.{IsGoField, Holds, columns-Holds, decode_tuple-marshal}
use tuplespace.Relational.{TupleRow, FieldRow, Tables, raw_row}

-- text_val, int_val and bool_val of a value.
abbrev pub columns_of : Any → Columns
columns_of (string s) = record { text_val = some s; int_val = none; bool_val = none }
columns_of (int64 z) = record { text_val = none; int_val = some z; bool_val = none }
columns_of (bool b) = record { text_val = none; int_val = none; bool_val = some b }
columns_of _ = record { text_val = none; int_val = none; bool_val = none }

abbrev pub field_row : ℤ → ℕ → TupleField → FieldRow
field_row id i f = record { tuple_id = id; pos = i; type = f.type; columns = columns_of f.value }

-- The rows of the fields from position `i` on.
abbrev pub field_rows : ℤ → ℕ → List TupleField → List FieldRow
field_rows id i [] = []
field_rows id i (f ∷ fs) = field_row id i f ∷ field_rows id (i + 1) fs

abbrev pub rows_of : ℤ → List FieldRow → List FieldRow
rows_of id = keep (λ f. int_eq f.tuple_id id)

-- The row of `tuples`, with those of `tuple_fields`, holds the tuple.
abbrev pub Stored : List FieldRow → StoredTuple → TupleRow → Type 0
Stored fields e r =
    (r.id ≡ e.id)
    × (r.space ≡ e.space)
    × (r.arity ≡ length e.tuple.fields)
    × (marshal e.tuple ≡ some r.payload)
    × All IsGoField e.tuple.fields
    × (rows_of e.id fields ≡ field_rows e.id 0 e.tuple.fields)

-- The tables hold these tuples, in the order of their ids.
abbrev pub Represents : List StoredTuple → Tables → Type 0
Represents tuples t = Zip (Stored t.fields) tuples t.tuples

columns_of-Holds : (c : Columns) (v : Any) → Holds c v → c ≡ columns_of v
columns_of-Holds c (string s) h = h
columns_of-Holds c (int64 z) h = h
columns_of-Holds c (bool b) h = h
columns_of-Holds c nil h = absurd h
columns_of-Holds c _ h = absurd h

pub columns_lem : (f : TupleField) → IsNormalField f → columns f ≡ ok (columns_of f.value)
columns_lem f n = let (c, e, h) = columns-Holds f n in e ∙ ap ok (columns_of-Holds c f.value h)

-- A stored row decodes to its tuple.
pub decode_Stored :
    (fields : List FieldRow) (e : StoredTuple) (r : TupleRow)
    → Stored fields e r
    → decode_tuple r.payload ≡ ok e.tuple
decode_Stored fields e r (i, s, a, written, go, rest) =
    let (p, written', read) = decode_tuple-marshal e.tuple go in
    let same : p ≡ r.payload = some-injective p r.payload (sym written' ∙ written) in
    ap decode_tuple (sym same) ∙ read

pub decode_rows_Represents :
    (fields : List FieldRow) (tuples : List StoredTuple) (rs : List TupleRow)
    → Zip (Stored fields) tuples rs
    → decode_rows (map raw_row rs) ≡ ok tuples
unfolding decode_rows
decode_rows_Represents fields [] [] h = refl
decode_rows_Represents fields [] (r ∷ rs) h = absurd h
decode_rows_Represents fields (e ∷ es) [] h = absurd h
decode_rows_Represents fields (e ∷ es) (r ∷ rs) (h, hs) =
    rw (decode_Stored fields e r h) (rw (decode_rows_Represents fields es rs hs) (rw (h.0, h.1)))
