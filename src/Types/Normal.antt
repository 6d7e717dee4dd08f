-- ===== src/Types/Normal.antt =====
-- Normalised values (internal/types/normalize.go): what `NormalizeValue` returns has the Go type
-- that the field's type names, and normalising again changes nothing.
use tuplespace.Base.{
  ◌≤◌, ◌<◌, ◌≡◌, inl, inr, false, Text, text_eq, text_eq_iff, ℤ, InInt64, max_uint64, ok, arith,
  Bool-cases,
}
use tuplespace.Strconv.{parse_int}
use tuplespace.Strconv.RoundTrip.{parse_int-InInt64}
use tuplespace.Types.{
  Any, nil, string, bool, int, int8, int16, int32, int64, uint, uint8, uint16, uint32, uint64,
  float32, float64, json_number, Float, type_string, type_int, type_bool, normalize_int,
  normalize_value, int64_of_float, json_int,
}

-- The type assertion for a field of type `t` succeeds on the value.
abbrev pub IsNormal : Text → Any → Type 0
IsNormal t (string s) = t ≡ type_string
IsNormal t (int64 z) = t ≡ type_int
IsNormal t (bool b) = t ≡ type_bool
IsNormal t _ = ⊥

-- The switch on a value type, with what each case knows of it.
pub data TypeView (t : Text) : Type 0 where
  is_string : t ≡ type_string → TypeView t
  is_int : t ≡ type_int → TypeView t
  is_bool : t ≡ type_bool → TypeView t
  is_unsupported :
      text_eq t type_string ≡ false
      → text_eq t type_int ≡ false
      → text_eq t type_bool ≡ false
      → TypeView t

pub type_view : (t : Text) → TypeView t
type_view t = elim (Bool-cases (text_eq t type_string)) [
  | inl s ↦ is_string ((text_eq_iff _ _).0 s)
  | inr ns ↦ elim (Bool-cases (text_eq t type_int)) [
    | inl i ↦ is_int ((text_eq_iff _ _).0 i)
    | inr ni ↦ elim (Bool-cases (text_eq t type_bool)) [
      | inl b ↦ is_bool ((text_eq_iff _ _).0 b)
      | inr nb ↦ is_unsupported ns ni nb
    ]
  ]
]

module _ (raw : Any) {v : Any} where
  string_case : normalize_value type_string raw ≡ ok v → IsNormal type_string v
  unfolding normalize_value text_eq
  string_case h = ground arith

  int_case : normalize_value type_int raw ≡ ok v → IsNormal type_int v
  unfolding normalize_value text_eq
  int_case h = ground arith

  bool_case : normalize_value type_bool raw ≡ ok v → IsNormal type_bool v
  unfolding normalize_value text_eq
  bool_case h = ground arith

  -- What `NormalizeValue` returns passes the type assertion for the field's type.
  pub normalize_value-IsNormal : (t : Text) → normalize_value t raw ≡ ok v → IsNormal t v
  unfolding normalize_value
  normalize_value-IsNormal t h = elim (type_view t) [
    | is_string e ↦ rw e (string_case (rw e at h))
    | is_int e ↦ rw e (int_case (rw e at h))
    | is_bool e ↦ rw e (bool_case (rw e at h))
    | is_unsupported s i b ↦ ground arith
  ]

-- A value that passes the assertion is left as it is.
pub normalize_value_of_IsNormal : (t : Text) (v : Any) → IsNormal t v → normalize_value t v ≡ ok v
unfolding normalize_value normalize_int text_eq
normalize_value_of_IsNormal t (string s) h = rw h
normalize_value_of_IsNormal t (int64 z) h = rw h
normalize_value_of_IsNormal t (bool b) h = rw h
normalize_value_of_IsNormal t nil h = absurd h
normalize_value_of_IsNormal t _ h = absurd h

-- Normalising a normalised value again gives the same value.
pub normalize_value_idempotent :
    (t : Text) (raw v : Any) → normalize_value t raw ≡ ok v → normalize_value t v ≡ ok v
normalize_value_idempotent t raw v h =
    normalize_value_of_IsNormal t v (normalize_value-IsNormal raw t h)

-- The values that the dynamic type of `raw` allows.
abbrev pub InRange : Any → Type 0
InRange (int z) = InInt64 z
InRange (int8 z) = InInt64 z
InRange (int16 z) = InInt64 z
InRange (int32 z) = InInt64 z
InRange (int64 z) = InInt64 z
InRange (uint n) = n ≤ max_uint64
InRange (uint8 n) = n < 256
InRange (uint16 n) = n < 65536
InRange (uint32 n) = n < 4294967296
InRange (uint64 n) = n ≤ max_uint64
InRange _ = Unit

json_int-InInt64 : (s : Text) (z : ℤ) → json_int s (parse_int s) ≡ ok z → InInt64 z
unfolding json_int
json_int-InInt64 s z h = ground (arith, parse_int-InInt64 s z)

int64_of_float-InInt64 : (v : Float) → InInt64 (int64_of_float v)
unfolding int64_of_float
int64_of_float-InInt64 v = ground arith

-- An integer field always holds a 64-bit integer.
pub normalize_int-InInt64 : (raw : Any) (z : ℤ) → InRange raw → normalize_int raw ≡ ok z → InInt64 z
unfolding normalize_int
normalize_int-InInt64 (json_number s) z r h = json_int-InInt64 s z h
normalize_int-InInt64 (float32 v) z r h = ground (arith, int64_of_float-InInt64 v)
normalize_int-InInt64 (float64 v) z r h = ground (arith, int64_of_float-InInt64 v)
normalize_int-InInt64 _ z r h = ground arith
