-- ===== src/Service/Refinement/Ranges.antt =====
-- The integers of an accepted tuple are 64-bit integers (internal/types/normalize.go under the
-- validation of internal/validation).
use tuplespace.Base.{
  ℕ, ◌+◌, ◌≡◌, List, [], ◌∷◌, Text, All, ok, wrap, >>=-eq-ok, >>-eq-ok, wrap-eq-ok, ok-injective,
  fail_if, text_eq, is_empty, codes, arith,
}
use tuplespace.Types.{
  Any, string, bool, TupleField, Tuple, normalize_value, normalize_int, normalize_fields,
  normalize_tuple,
}
use tuplespace.Types.Normal.{
  is_string, is_int, is_bool, is_unsupported, type_view, InRange, normalize_int-InInt64,
  normalize_value-IsNormal,
}
use tuplespace.Store.RoundTrip.{FitsInt64, IsGoField}
use tuplespace.Validation.{validate_tuple}
use tuplespace.Validation.Accepted.{reject-eq-ok}

-- The values of a tuple that a Go program passes in.
abbrev pub InRangeField : TupleField → Type 0
InRangeField f = InRange f.value

string_FitsInt64 : (raw v : Any) → normalize_value (codes "string") raw ≡ ok v → FitsInt64 v
unfolding normalize_value text_eq
string_FitsInt64 (string s) v h = rw (← ok-injective h) tt
string_FitsInt64 _ v h = cc

bool_FitsInt64 : (raw v : Any) → normalize_value (codes "bool") raw ≡ ok v → FitsInt64 v
unfolding normalize_value text_eq
bool_FitsInt64 (bool s) v h = rw (← ok-injective h) tt
bool_FitsInt64 _ v h = cc

int_FitsInt64 : (raw v : Any) → InRange raw → normalize_value (codes "int") raw ≡ ok v → FitsInt64 v
unfolding normalize_value text_eq
int_FitsInt64 raw v r h =
    let (z, e, h₁) = >>=-eq-ok (normalize_int raw) _ h in
    rw (← ok-injective h₁) (normalize_int-InInt64 raw z r e)

normalize_value-FitsInt64 :
    (t : Text) (raw v : Any) → InRange raw → normalize_value t raw ≡ ok v → FitsInt64 v
unfolding normalize_value
normalize_value-FitsInt64 t raw v r h = elim (type_view t) [
  | is_string e ↦ string_FitsInt64 raw v (rw e at h)
  | is_int e ↦ int_FitsInt64 raw v r (rw e at h)
  | is_bool e ↦ bool_FitsInt64 raw v (rw e at h)
  | is_unsupported s i b ↦ ground arith
]

normalize_fields-IsGoField :
    (i : ℕ) (fs gs : List TupleField)
    → All InRangeField fs
    → normalize_fields i fs ≡ ok gs
    → All IsGoField gs
unfolding normalize_fields
normalize_fields-IsGoField i [] gs r h = rw (← ok-injective h) tt
normalize_fields-IsGoField i (f ∷ fs) gs (r, rs) h =
    let (v, e₁, h₁) = >>=-eq-ok (wrap _ (normalize_value f.type f.value)) _ h in
    let (rest, e₂, h₂) = >>=-eq-ok (normalize_fields (i + 1) fs) _ h₁ in
    let norm = wrap-eq-ok _ (normalize_value f.type f.value) e₁ in
    rw (← ok-injective h₂) (
      (
        normalize_value-IsNormal f.value f.type norm,
        normalize_value-FitsInt64 f.type f.value v r norm,
      ),
      normalize_fields-IsGoField (i + 1) fs rest rs e₂,
    )

-- An accepted tuple has a value of its type in each field, and its integers are 64-bit integers.
pub validate_tuple-IsGoField :
    (t u : Tuple) → All InRangeField t.fields → validate_tuple t ≡ ok u → All IsGoField u.fields
unfolding validate_tuple normalize_tuple
validate_tuple-IsGoField t u r h =
    let (given, h₁) = >>-eq-ok (fail_if (is_empty t.fields) _) _ h in
    let (_, h₂) = >>-eq-ok _ _ h₁ in
    let (gs, e, h₃) =
      >>=-eq-ok (normalize_fields 0 t.fields) _
        (reject-eq-ok (codes "invalid_tuple") (normalize_tuple t) h₂) in
    rw (← ok-injective h₃) (normalize_fields-IsGoField 0 t.fields gs r e)
