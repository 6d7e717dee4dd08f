-- ===== src/Dsl/Checked.antt =====
-- What the DSL gives (cmd/tuplespacectl/cmds/common.go) is what the server accepts.
use tuplespace.Base.{
  ℕ, ◌+◌, ◌≡◌, ◌≢◌, inl, inr, refl, Option, none, some, List, [], ◌∷◌, ◌++◌, Text, is_empty, All, ℤ,
  ok, ◌>>=◌, fail_if, wrap, >>=-eq-ok, >>-eq-ok, arith, Bool-cases, trim_space, wrap-eq-ok,
}
use tuplespace.Strconv.{parse_int}
use tuplespace.Strconv.Quoted.{unquote}
use tuplespace.Types.{TupleField, Tuple, TemplateField, Template, field_actual, normalize_template}
use tuplespace.Types.Normal.{IsNormal}
use tuplespace.Types.Fields.{normalize_tuple-IsNormalTuple}
use tuplespace.Types.Templates.{normalize_template-TemplateOutcome}
use tuplespace.Validation.{validate_tuple, validate_template}
use tuplespace.Validation.Accepted.{
  IsStorable, types-ne-nil, IsCheckedField, IsWellFormed, normal-All, Zip-ne-nil,
  IsNormal-supported, validate_tuple_of_IsStorable, validate_template_of_IsWellFormed,
  is_empty-eq-false,
}
use tuplespace.Dsl.{
  Split, end_part, split_end, split_runes, split_start, strip_parens, split_spec_fields, Literal,
  quoted_literal, bare_literal, parse_literal_token, formal_field, formal_parts, parse_formal_token,
  parse_template_field_token, parse_tuple_parts, parse_template_parts, parse_tuple_spec,
  parse_template_spec, field_error, normalize_error, starts_with, spec_unterminated, spec_empty,
  spec_no_field,
}

-- A literal's value has the literal's type.
quoted_literal-IsNormal :
    (token trimmed : Text) (o : Option Text) (l : Literal)
    → quoted_literal token trimmed o ≡ ok l
    → IsNormal l.0 l.1
unfolding quoted_literal
quoted_literal-IsNormal token trimmed none l h = cc
quoted_literal-IsNormal token trimmed (some v) l h = ground arith

bare_literal-IsNormal :
    (trimmed : Text) (o : Option ℤ) (l : Literal) → bare_literal trimmed o ≡ ok l → IsNormal l.0 l.1
unfolding bare_literal
bare_literal-IsNormal trimmed none l h = ground arith
bare_literal-IsNormal trimmed (some z) l h = ground arith

parse_literal_token-IsNormal :
    (token : Text) (l : Literal) → parse_literal_token token ≡ ok l → IsNormal l.0 l.1
unfolding parse_literal_token
parse_literal_token-IsNormal token l h = ground (
  arith,
  quoted_literal-IsNormal token (trim_space token) (unquote (trim_space token)) l,
  bare_literal-IsNormal (trim_space token) (parse_int (trim_space token)) l,
)

append-ne-nil : (xs : List Text) (x : Text) → xs ++ x ∷ [] ≢ []
append-ne-nil [] x = λ e. cc
append-ne-nil (y ∷ ys) x = λ e. cc

end_part-ne-nil : (s s' : Split) → end_part s ≡ ok s' → s'.parts ≢ []
unfolding end_part
end_part-ne-nil s s' h e = ground (arith, append-ne-nil s.parts (trim_space s.current))

split_end-ne-nil : (s : Split) (parts : List Text) → split_end s ≡ ok parts → parts ≢ []
unfolding split_end
split_end-ne-nil s parts h =
    let (_, h₁) = >>-eq-ok (fail_if s.in_quotes spec_unterminated) _ h in
    let (s', e, h₂) = >>=-eq-ok (end_part s) _ h₁ in λ p. end_part-ne-nil s s' e (ground arith)

split_spec_fields-ne-nil :
    (spec : Text) (parts : List Text) → split_spec_fields spec ≡ ok parts → parts ≢ []
unfolding split_spec_fields
split_spec_fields-ne-nil spec parts h =
    let (_, h₁) = >>-eq-ok (fail_if (is_empty (trim_space spec)) spec_empty) _ h in
    let (_, h₂) =
      >>-eq-ok (fail_if (is_empty (strip_parens (trim_space spec))) spec_no_field) _ h₁ in
    let (s, _, h₃) =
      >>=-eq-ok (split_runes split_start (strip_parens (trim_space spec))) split_end h₂ in
    split_end-ne-nil s parts h₃

parse_tuple_parts-ne-nil :
    (i : ℕ) (parts : List Text) (fs : List TupleField)
    → parse_tuple_parts i parts ≡ ok fs
    → parts ≢ []
    → fs ≢ []
unfolding parse_tuple_parts
parse_tuple_parts-ne-nil i [] fs h n = absurd (n refl)
parse_tuple_parts-ne-nil i (p ∷ ps) fs h n =
    let (l, _, h₁) = >>=-eq-ok (wrap (field_error i) (parse_literal_token p)) _ h in
    let (rest, _, h₂) = >>=-eq-ok (parse_tuple_parts (i + 1) ps) _ h₁ in λ e. ground arith

-- A parsed tuple is storable.
pub parse_tuple_spec-IsStorable :
    (spec : Text) (t : Tuple) → parse_tuple_spec spec ≡ ok t → IsStorable t
unfolding parse_tuple_spec
parse_tuple_spec-IsStorable spec t h =
    let (parts, split, h₁) = >>=-eq-ok (split_spec_fields spec) _ h in
    let (fs, parsed, h₂) = >>=-eq-ok (parse_tuple_parts 0 parts) _ h₁ in
    let (normal, same) =
      normalize_tuple-IsNormalTuple (record { fields = fs }) t (wrap-eq-ok normalize_error _ h₂) in
    let some_part = split_spec_fields-ne-nil spec parts split in
    (types-ne-nil fs t.fields same (parse_tuple_parts-ne-nil 0 parts fs parsed some_part), normal)

-- The server accepts every tuple that the DSL gives, and keeps it as it is.
pub parse_tuple_spec-validate_tuple :
    (spec : Text) (t : Tuple) → parse_tuple_spec spec ≡ ok t → validate_tuple t ≡ ok t
parse_tuple_spec-validate_tuple spec t h =
    validate_tuple_of_IsStorable t (parse_tuple_spec-IsStorable spec t h)

formal_field-IsCheckedField :
    (token name type : Text) (f : TemplateField)
    → formal_field token name type ≡ ok f
    → IsCheckedField f
unfolding formal_field
formal_field-IsCheckedField token name type f h = ground (arith, is_empty-eq-false name)

formal_parts-IsCheckedField :
    (token : Text) (o : Option (Text × Text)) (f : TemplateField)
    → formal_parts token o ≡ ok f
    → IsCheckedField f
unfolding formal_parts
formal_parts-IsCheckedField token none f h = cc
formal_parts-IsCheckedField token (some (name, type)) f h =
    formal_field-IsCheckedField token (trim_space name) (trim_space type) f h

actual-IsCheckedField :
    (token : Text) (f : TemplateField)
    → (do
      (type, value) ← parse_literal_token token
      ok (record { kind = field_actual; type = type; name = []; value = value }))
      ≡ ok f
    → IsCheckedField f
actual-IsCheckedField token f h =
    let (l, e, h₁) = >>=-eq-ok (parse_literal_token token) _ h in
    let supported = IsNormal-supported l.0 l.1 (parse_literal_token-IsNormal token l e) in
    ground arith

parse_template_field_token-IsCheckedField :
    (token : Text) (f : TemplateField) → parse_template_field_token token ≡ ok f → IsCheckedField f
unfolding parse_template_field_token parse_formal_token
parse_template_field_token-IsCheckedField token f h = elim (Bool-cases (starts_with b'?' token)) [
  | inl q ↦ formal_parts-IsCheckedField token _ f (rw q at h)
  | inr n ↦ actual-IsCheckedField token f (rw n at h)
]

parse_template_parts-IsCheckedField :
    (i : ℕ) (parts : List Text) (fs : List TemplateField)
    → parse_template_parts i parts ≡ ok fs
    → All IsCheckedField fs × (parts ≢ [] → fs ≢ [])
unfolding parse_template_parts
parse_template_parts-IsCheckedField i [] [] h = (tt, λ n. absurd (n refl))
parse_template_parts-IsCheckedField i [] (f ∷ fs) h = cc
parse_template_parts-IsCheckedField i (p ∷ ps) [] h =
    let (f, _, h₁) = >>=-eq-ok (wrap (field_error i) (parse_template_field_token p)) _ h in
    let (rest, _, h₂) = >>=-eq-ok (parse_template_parts (i + 1) ps) _ h₁ in absurd (ground arith)
parse_template_parts-IsCheckedField i (p ∷ ps) (g ∷ gs) h =
    let (f, e, h₁) = >>=-eq-ok (wrap (field_error i) (parse_template_field_token p)) _ h in
    let (rest, e', h₂) = >>=-eq-ok (parse_template_parts (i + 1) ps) _ h₁ in
    let same : f ≡ g = ground arith in
    let same' : rest ≡ gs = ground arith in
    let first = parse_template_field_token-IsCheckedField p f (wrap-eq-ok (field_error i) _ e) in
    let (others, _) = parse_template_parts-IsCheckedField (i + 1) ps gs (rw same' at e') in
    ((rw same at first, others), λ _ p. cc)

-- A parsed template is well formed.
pub parse_template_spec-IsWellFormed :
    (spec : Text) (t : Template) → parse_template_spec spec ≡ ok t → IsWellFormed t
unfolding parse_template_spec
parse_template_spec-IsWellFormed spec t h =
    let (parts, split, h₁) = >>=-eq-ok (split_spec_fields spec) _ h in
    let (fs, parsed, h₂) = >>=-eq-ok (parse_template_parts 0 parts) _ h₁ in
    let (checked, ne) = parse_template_parts-IsCheckedField 0 parts fs parsed in
    let (normal, same) =
      rw (wrap-eq-ok normalize_error (normalize_template (record { fields = fs })) h₂) at
        (normalize_template-TemplateOutcome (record { fields = fs })) in
    (
      Zip-ne-nil fs t.fields same (ne (split_spec_fields-ne-nil spec parts split)),
      normal-All fs t.fields checked same normal,
    )

-- The server accepts every template that the DSL gives, as it is.
pub parse_template_spec-validate_template :
    (spec : Text) (t : Template) → parse_template_spec spec ≡ ok t → validate_template t ≡ ok t
parse_template_spec-validate_template spec t h =
    validate_template_of_IsWellFormed t (parse_template_spec-IsWellFormed spec t h)
