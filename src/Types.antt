-- ===== src/Types.antt =====
-- internal/types: tuples, templates and values, and their normalisation (tuple.go, template.go,
-- normalize.go). A Go `any` is the sum of the dynamic types that the code tells apart.
pub mod Normal
pub mod Fields
pub mod Templates
use tuplespace.Base.{
  ℕ, suc, ◌+◌, ◌≤◌, Bool, true, false, Option, none, some, List, [], ◌∷◌, String, Text, codes,
  text_eq, leb, ltb, if◌then◌else◌, ◌||◌, ℤ, pos, negsuc, max_int64, Result, ok, err, ◌>>=◌, wrap,
}
use tuplespace.Strconv.{parse_int}

-- What `math.Trunc` and a conversion see of a float: its whole part, and whether there is more.
pub data Float : Type 0 where
  whole fraction : ℤ → Float
  infinite : Bool → Float
  nan : Float

pub data Any : Type 0 where
  nil : Any
  string : Text → Any
  bool : Bool → Any
  int int8 int16 int32 int64 : ℤ → Any
  uint uint8 uint16 uint32 uint64 : ℕ → Any
  float32 float64 : Float → Any
  json_number : Text → Any
  other : Any

abbrev pub type_string : Text
type_string = codes "string"

abbrev pub type_int : Text
type_int = codes "int"

abbrev pub type_bool : Text
type_bool = codes "bool"

abbrev pub field_actual : Text
field_actual = codes "actual"

abbrev pub field_formal : Text
field_formal = codes "formal"

pub record TupleField : Type 0 where
  pub type : Text
  pub value : Any

pub record Tuple : Type 0 where
  pub fields : List TupleField

pub record TemplateField : Type 0 where
  pub kind : Text
  pub type : Text
  pub name : Text
  pub value : Any

pub record Template : Type 0 where
  pub fields : List TemplateField

unfoldable pub is_supported_value_type : Text → Bool
is_supported_value_type t = text_eq t type_string || text_eq t type_int || text_eq t type_bool

-- The errors of normalize.go, by their message.
pub data NormalizeError : Type 0 where
  expected_string expected_int expected_bool : NormalizeError
  uint_overflow uint64_overflow : ℕ → NormalizeError
  not_integral : NormalizeError
  bad_json_number : Text → NormalizeError
  unsupported_value_type : Text → NormalizeError

-- "field %d: %w"
pub record FieldError : Type 0 where
  pub index : ℕ
  pub cause : NormalizeError

-- math.Trunc(v) != v: false at the infinities, true at NaN.
unfoldable pub trunc_differs : Float → Bool
trunc_differs (whole z) = false
trunc_differs (fraction z) = true
trunc_differs (infinite sign) = false
trunc_differs nan = true

-- int64(v). Out of range Go leaves the result to the platform; amd64 gives the smallest int64.
unfoldable pub int64_of_float : Float → ℤ
int64_of_float (whole (pos n)) = if leb n max_int64 then pos n else negsuc max_int64
int64_of_float (whole (negsuc n)) = if leb n max_int64 then negsuc n else negsuc max_int64
int64_of_float (fraction (pos n)) = if leb n max_int64 then pos n else negsuc max_int64
int64_of_float (fraction (negsuc n)) = if leb n max_int64 then negsuc n else negsuc max_int64
int64_of_float (infinite sign) = negsuc max_int64
int64_of_float nan = negsuc max_int64

json_int : Text → Option ℤ → Result NormalizeError ℤ
json_int s none = err (bad_json_number s)
json_int s (some z) = ok z

unfoldable pub normalize_int : Any → Result NormalizeError ℤ
unfolding json_int trunc_differs int64_of_float
normalize_int (int z) = ok z
normalize_int (int8 z) = ok z
normalize_int (int16 z) = ok z
normalize_int (int32 z) = ok z
normalize_int (int64 z) = ok z
normalize_int (uint n) = if ltb max_int64 n then err (uint_overflow n) else ok (pos n)
normalize_int (uint8 n) = ok (pos n)
normalize_int (uint16 n) = ok (pos n)
normalize_int (uint32 n) = ok (pos n)
normalize_int (uint64 n) = if ltb max_int64 n then err (uint64_overflow n) else ok (pos n)
normalize_int (float32 v) = if trunc_differs v then err not_integral else ok (int64_of_float v)
normalize_int (float64 v) = if trunc_differs v then err not_integral else ok (int64_of_float v)
normalize_int (json_number s) = json_int s (parse_int s)
normalize_int _ = err expected_int

-- raw.(string) and raw.(bool)
as_string : Any → Result NormalizeError Any
as_string (string s) = ok (string s)
as_string _ = err expected_string

as_bool : Any → Result NormalizeError Any
as_bool (bool b) = ok (bool b)
as_bool _ = err expected_bool

unfoldable pub normalize_value : Text → Any → Result NormalizeError Any
unfolding as_string as_bool
normalize_value t raw =
    if text_eq t type_string
    then as_string raw
    else if text_eq t type_int
    then (do z ← normalize_int raw; ok (int64 z))
    else if text_eq t type_bool
    then as_bool raw
    else err (unsupported_value_type t)

-- The loop of `NormalizeTuple` from index `i` on.
unfoldable pub normalize_fields : ℕ → List TupleField → Result FieldError (List TupleField)
normalize_fields i [] = ok []
normalize_fields i (f ∷ fs) = do
  value ← wrap (λ e. record { index = i; cause = e }) (normalize_value f.type f.value)
  rest ← normalize_fields (i + 1) fs
  ok (record { type = f.type; value = value } ∷ rest)

unfoldable pub normalize_tuple : Tuple → Result FieldError Tuple
unfolding normalize_fields
normalize_tuple t = do fields ← normalize_fields 0 t.fields; ok (record { fields = fields })

-- The value of a formal field is not carried over.
unfoldable pub normalize_template_value : TemplateField → Result NormalizeError Any
normalize_template_value f =
    if text_eq f.kind field_actual then normalize_value f.type f.value else ok nil

normalize_template_fields : ℕ → List TemplateField → Result FieldError (List TemplateField)
unfolding normalize_template_value
normalize_template_fields i [] = ok []
normalize_template_fields i (f ∷ fs) = do
  value ← wrap (λ e. record { index = i; cause = e }) (normalize_template_value f)
  rest ← normalize_template_fields (i + 1) fs
  ok (record { kind = f.kind; type = f.type; name = f.name; value = value } ∷ rest)

unfoldable pub normalize_template : Template → Result FieldError Template
unfolding normalize_template_fields
normalize_template t = do
  fields ← normalize_template_fields 0 t.fields
  ok (record { fields = fields })
