-- ===== src/Validation.antt =====
-- internal/validation: which spaces, tuples and templates the service accepts (errors.go, space.go,
-- tuple.go, template.go).
pub mod Space
pub mod Accepted
use tuplespace.Base.{
  ℕ, ◌+◌, Bool, true, false, ◌&&◌, ◌||◌, not, List, [], ◌∷◌, Text, codes, text_eq, leb, ◌==◌,
  length, all, is_empty, if◌then◌else◌, Result, ok, err, ◌>>=◌, ◌>>◌, fail_if,
}
use tuplespace.Types.{
  Any, nil, TupleField, Tuple, TemplateField, Template, FieldError, field_actual, field_formal,
  is_supported_value_type, normalize_tuple, normalize_template,
}

-- The messages of the package, and of its callers, by their format text.
pub data Message : Type 0 where
  space_must_match : Text → Message
  no_fields : Message
  field_uses_unsupported_type : ℕ → Text → Message
  actual_must_not_set_name formal_must_set_name formal_must_not_set_value : ℕ → Message
  field_uses_invalid_kind : ℕ → Text → Message
  normalize_error : FieldError → Message
  tuple_id_must_be_positive limit_negative offset_negative created_range confirm_flag : Message

pub record Error : Type 0 where
  pub code : Text
  pub message : Message

unfoldable pub new_error : Text → Message → Error
new_error code message = record { code = code; message = message }

-- [A-Za-z0-9] and [A-Za-z0-9_.-]
unfoldable pub is_alphanumeric : ℕ → Bool
is_alphanumeric c =
    (leb b'A' c && leb c b'Z') || (leb b'a' c && leb c b'z') || (leb b'0' c && leb c b'9')

unfoldable pub is_space_char : ℕ → Bool
unfolding is_alphanumeric
is_space_char c = is_alphanumeric c || (c == b'_') || (c == b'.') || (c == b'-')

-- ^[A-Za-z0-9][A-Za-z0-9_.-]{0,63}$
unfoldable pub matches_space_pattern : Text → Bool
unfolding is_space_char
matches_space_pattern [] = false
matches_space_pattern (c ∷ s) = is_alphanumeric c && all is_space_char s && leb (length s) 63

unfoldable pub validate_space : Text → Result Error (Unit {0})
unfolding matches_space_pattern new_error
validate_space space =
    fail_if (not (matches_space_pattern space))
      (new_error (codes "invalid_space") (space_must_match space))

-- `newError("…", err.Error())` around a normalisation.
abbrev reject {ℓ} : {A : Type ℓ} → Text → Result FieldError A → Result Error A
reject code (ok a) = ok a
reject code (err e) = err (record { code = code; message = normalize_error e })

-- The loop over the fields of a tuple, from index `i` on.
check_types : ℕ → List TupleField → Result Error (Unit {0})
unfolding new_error
check_types i [] = ok tt
check_types i (f ∷ fs) = do
  fail_if (not (is_supported_value_type f.type))
      (new_error (codes "unsupported_type") (field_uses_unsupported_type i f.type))
  check_types (i + 1) fs

unfoldable pub validate_tuple : Tuple → Result Error Tuple
unfolding check_types new_error
validate_tuple t = do
  fail_if (is_empty t.fields) (new_error (codes "invalid_tuple") no_fields)
  check_types 0 t.fields
  reject (codes "invalid_tuple") (normalize_tuple t)

abbrev is_nil : Any → Bool
is_nil nil = true
is_nil _ = false

-- The `switch field.Kind` of one field.
check_kind : ℕ → TemplateField → Result Error (Unit {0})
unfolding new_error
check_kind i f =
    if text_eq f.kind field_actual
    then fail_if (not (is_empty f.name))
        (new_error (codes "invalid_template") (actual_must_not_set_name i))
    else if text_eq f.kind field_formal
    then (do
      fail_if (is_empty f.name) (new_error (codes "invalid_template") (formal_must_set_name i))
      fail_if (not (is_nil f.value))
          (new_error (codes "invalid_template") (formal_must_not_set_value i)))
    else err (new_error (codes "invalid_template") (field_uses_invalid_kind i f.kind))

check_field : ℕ → TemplateField → Result Error (Unit {0})
unfolding check_kind
check_field i f = do
  fail_if (not (is_supported_value_type f.type))
      (new_error (codes "unsupported_type") (field_uses_unsupported_type i f.type))
  check_kind i f

check_template_fields : ℕ → List TemplateField → Result Error (Unit {0})
unfolding check_field
check_template_fields i [] = ok tt
check_template_fields i (f ∷ fs) = do check_field i f; check_template_fields (i + 1) fs

unfoldable pub validate_template : Template → Result Error Template
unfolding check_template_fields new_error
validate_template t = do
  fail_if (is_empty t.fields) (new_error (codes "invalid_template") no_fields)
  check_template_fields 0 t.fields
  reject (codes "invalid_template") (normalize_template t)
