-- ===== src/Store/Codec.antt =====
-- The column fields_json (internal/store/tuple_store.go): a tuple as JSON, and back with `UseNumber`.
-- The JSON is kept as a value; its text is a matter of `encoding/json` and the column type JSONB.
use tuplespace.Base.{Bool, Option, none, some, List, [], ◌∷◌, Text}
use tuplespace.Strconv.{format_int}
use tuplespace.Types.{Any, nil, string, bool, int64, json_number, other, TupleField, Tuple}

pub data Json : Type 0 where
  null : Json
  boolean : Bool → Json
  number : Text → Json
  text : Text → Json
  structure : Json

pub record PayloadField : Type 0 where
  pub type : Text
  pub value : Json

abbrev pub Payload : Type 0
Payload = List PayloadField

-- The store is given normalised tuples only; the type assertions behind `json.Marshal` stop at
-- any other value.
unfoldable pub marshal_value : Any → Option Json
marshal_value (string s) = some (text s)
marshal_value (int64 z) = some (number (format_int z))
marshal_value (bool b) = some (boolean b)
marshal_value _ = none

abbrev add_field : Text → Option Json → Option Payload → Option Payload
add_field t none p = none
add_field t (some j) none = none
add_field t (some j) (some p) = some (record { type = t; value = j } ∷ p)

unfoldable pub marshal_fields : List TupleField → Option Payload
unfolding marshal_value
marshal_fields [] = some []
marshal_fields (f ∷ fs) = add_field f.type (marshal_value f.value) (marshal_fields fs)

unfoldable pub marshal : Tuple → Option Payload
unfolding marshal_fields
marshal t = marshal_fields t.fields

unfoldable pub unmarshal_value : Json → Any
unmarshal_value null = nil
unmarshal_value (boolean b) = bool b
unmarshal_value (number s) = json_number s
unmarshal_value (text s) = string s
unmarshal_value structure = other

unfoldable pub unmarshal_fields : Payload → List TupleField
unfolding unmarshal_value
unmarshal_fields [] = []
unmarshal_fields (p ∷ ps) =
    record { type = p.type; value = unmarshal_value p.value } ∷ unmarshal_fields ps

unfoldable pub unmarshal : Payload → Tuple
unfolding unmarshal_fields
unmarshal p = record { fields = unmarshal_fields p }
