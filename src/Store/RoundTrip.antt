-- ===== src/Store/RoundTrip.antt =====
-- A stored tuple reads back as it was written, and writing it never stops at a type assertion
-- (internal/store/tuple_store.go).
use tuplespace.Base.{
  ℕ, ◌+◌, ◌≡◌, refl, none, some, List, [], ◌∷◌, Text, text_eq, ℤ, InInt64, All, ok,
}
use tuplespace.Strconv.{format_int}
use tuplespace.Strconv.RoundTrip.{parse_int-format_int}
use tuplespace.Types.{
  Any, nil, string, bool, int64, json_number, TupleField, Tuple, type_int, normalize_value,
  normalize_int, normalize_fields, normalize_tuple,
}
use tuplespace.Types.Normal.{IsNormal, normalize_value_of_IsNormal}
use tuplespace.Types.Fields.{IsNormalField}
use tuplespace.Store.Codec.{
  Json, Payload, marshal_value, marshal_fields, marshal, unmarshal_value, unmarshal_fields,
  unmarshal,
}
use tuplespace.Store.Database.{Columns}
use tuplespace.Store.{columns, decode_tuple}

-- A value that the code calls an int64 is one.
abbrev pub FitsInt64 : Any → Type 0
FitsInt64 (int64 z) = InInt64 z
FitsInt64 _ = Unit

-- A field that a Go program can hold after normalisation.
abbrev pub IsGoField : TupleField → Type 0
IsGoField f = IsNormalField f × FitsInt64 f.value

number_back :
    (t : Text) (z : ℤ)
    → t ≡ type_int
    → InInt64 z
    → normalize_value t (json_number (format_int z)) ≡ ok (int64 z)
unfolding normalize_value normalize_int text_eq
number_back t z e h = rw (e, parse_int-format_int z h)

value_back :
    (t : Text) (v : Any)
    → IsNormal t v
    → FitsInt64 v
    → (j : Json) × (marshal_value v ≡ some j) × (normalize_value t (unmarshal_value j) ≡ ok v)
unfolding marshal_value unmarshal_value
value_back t (string s) n h = (Json.text s, refl, normalize_value_of_IsNormal t (string s) n)
value_back t (int64 z) n h = (Json.number (format_int z), refl, number_back t z n h)
value_back t (bool b) n h = (Json.boolean b, refl, normalize_value_of_IsNormal t (bool b) n)
value_back t nil n h = absurd n
value_back t _ n h = absurd n

fields_back :
    (i : ℕ) (fs : List TupleField)
    → All IsGoField fs
    → (p : Payload) × (marshal_fields fs ≡ some p)
      × (normalize_fields i (unmarshal_fields p) ≡ ok fs)
unfolding marshal_fields unmarshal_fields normalize_fields
fields_back i [] h = ([], refl, refl)
fields_back i (f ∷ fs) ((n, fits), h) =
    let (j, written, read) = value_back f.type f.value n fits in
    let (p, rest, back) = fields_back (i + 1) fs h in
    (record { type = f.type; value = j } ∷ p, rw (written, rest), rw read (rw back))

-- What `InsertTuple` writes to fields_json for a tuple of normalised values decodes to that tuple.
pub decode_tuple-marshal :
    (t : Tuple)
    → All IsGoField t.fields
    → (p : Payload) × (marshal t ≡ some p) × (decode_tuple p ≡ ok t)
unfolding marshal decode_tuple normalize_tuple unmarshal
decode_tuple-marshal t h =
    let (p, written, read) = fields_back 0 t.fields h in (p, written, rw read)

-- The columns of a row of tuple_fields hold the value.
abbrev pub Holds : Columns → Any → Type 0
Holds c (string s) = c ≡ record { text_val = some s; int_val = none; bool_val = none }
Holds c (int64 z) = c ≡ record { text_val = none; int_val = some z; bool_val = none }
Holds c (bool b) = c ≡ record { text_val = none; int_val = none; bool_val = some b }
Holds c _ = ⊥

columns-Holds_at :
    (t : Text) (v : Any)
    → IsNormal t v
    → (c : Columns) × (columns (record { type = t; value = v }) ≡ ok c) × Holds c v
unfolding columns text_eq
columns-Holds_at t (string s) n =
    (record { text_val = some s; int_val = none; bool_val = none }, rw n, refl)
columns-Holds_at t (int64 z) n =
    (record { text_val = none; int_val = some z; bool_val = none }, rw n, refl)
columns-Holds_at t (bool b) n =
    (record { text_val = none; int_val = none; bool_val = some b }, rw n, refl)
columns-Holds_at t nil n = absurd n
columns-Holds_at t _ n = absurd n

-- For a normalised field the type assertion of `InsertTuple` succeeds, and the one column of the
-- field's type holds the value.
pub columns-Holds :
    (f : TupleField) → IsNormalField f → (c : Columns) × (columns f ≡ ok c) × Holds c f.value
columns-Holds f n = columns-Holds_at f.type f.value n
