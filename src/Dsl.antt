-- ===== src/Dsl.antt =====
-- The tuple and template DSL of the client (cmd/tuplespacectl/cmds/common.go): splitting a spec into
-- fields, reading a field, and choosing among the inputs of a command.
pub mod Checked
use tuplespace.Base.{
  ℕ, ◌+◌, ◌≡◌, refl, Bool, true, false, ◌&&◌, ◌||◌, not, Option, none, some, List, [], ◌∷◌, ◌++◌,
  reverse, Text, codes, text_eq, trim_space, cut_prefix, ◌==◌, is_empty, if◌then◌else◌, ℤ, Result,
  ok, err, ◌>>=◌, ◌>>◌, fail_if, wrap,
}
use tuplespace.Strconv.{parse_int}
use tuplespace.Strconv.Quoted.{unquote}
use tuplespace.Types.{
  Any, nil, string, bool, int64, TupleField, Tuple, TemplateField, Template, FieldError,
  field_actual, field_formal, type_string, type_int, type_bool, is_supported_value_type,
  normalize_tuple, normalize_template,
}

-- The errors of one field, by their message.
pub data TokenError : Type 0 where
  literal_empty : TokenError
  not_double_quoted unquote_failed formal_shape formal_no_name formal_no_type : Text → TokenError
  formal_unsupported_type : Text → Text → TokenError

pub data SpecError : Type 0 where
  spec_empty spec_no_field spec_empty_field spec_unterminated : SpecError
  field_error : ℕ → TokenError → SpecError
  normalize_error : FieldError → SpecError

-- The variables of the loop over the runes.
pub record Split : Type 0 where
  pub parts : List Text
  pub current : Text
  pub in_quotes : Bool
  pub escaped : Bool

abbrev pub split_start : Split
split_start = record { parts = []; current = []; in_quotes = false; escaped = false }

write_rune : Split → ℕ → Split
write_rune s r = record s { current = s.current ++ r ∷ [] }

-- `part := strings.TrimSpace(current.String())`, refused if empty, else appended.
end_part : Split → Result SpecError Split
end_part s =
    let part = trim_space s.current in
    if is_empty part
    then err spec_empty_field
    else ok (record s { parts = s.parts ++ part ∷ []; current = [] })

split_rune : Split → ℕ → Result SpecError Split
unfolding write_rune end_part
split_rune s r =
    if s.escaped
    then ok (record (write_rune s r) { escaped = false })
    else if r == b'\\' && s.in_quotes
    then ok (record (write_rune s r) { escaped = true })
    else if r == b'"'
    then ok (record (write_rune s r) { in_quotes = not s.in_quotes })
    else if r == b',' && not s.in_quotes
    then end_part s
    else ok (write_rune s r)

split_runes : Split → Text → Result SpecError Split
unfolding split_rune
split_runes s [] = ok s
split_runes s (r ∷ rs) = do s' ← split_rune s r; split_runes s' rs

-- What follows the loop.
split_end : Split → Result SpecError (List Text)
unfolding end_part
split_end s = do fail_if s.in_quotes spec_unterminated; s' ← end_part s; ok s'.parts

-- strings.HasPrefix(t, "(") && strings.HasSuffix(t, ")"), and the text between the two.
last_is : ℕ → Text → Bool
last_is c s = elim (reverse s) [ [] ↦ false | d ∷ _ ↦ d == c ]

drop_last : Text → Text
drop_last s = elim (reverse s) [ [] ↦ [] | _ ∷ r ↦ reverse r ]

strip_parens : Text → Text
unfolding last_is drop_last
strip_parens [] = []
strip_parens (c ∷ s) = if c == b'(' && last_is b')' (c ∷ s) then trim_space (drop_last s) else c ∷ s

unfoldable pub split_spec_fields : Text → Result SpecError (List Text)
unfolding strip_parens split_runes split_end
split_spec_fields spec = do
  let trimmed = trim_space spec
  fail_if (is_empty trimmed) spec_empty
  let inner = strip_parens trimmed
  fail_if (is_empty inner) spec_no_field
  s ← split_runes split_start inner
  split_end s

abbrev pub Literal : Type 0
Literal = Text × Any

quoted_literal : Text → Text → Option Text → Result TokenError Literal
quoted_literal token trimmed none = err (unquote_failed token)
quoted_literal token trimmed (some v) = ok (type_string, string v)

bare_literal : Text → Option ℤ → Result TokenError Literal
bare_literal trimmed (some z) = ok (type_int, int64 z)
bare_literal trimmed none = ok (type_string, string trimmed)

-- A text starting with a double quote, without its first character.
starts_with : ℕ → Text → Bool
starts_with c [] = false
starts_with c (d ∷ s) = d == c

abbrev shorter_than_two : Text → Bool
shorter_than_two [] = true
shorter_than_two (c ∷ s) = is_empty s

unfoldable pub parse_literal_token : Text → Result TokenError Literal
unfolding quoted_literal bare_literal starts_with last_is
parse_literal_token token =
    let trimmed = trim_space token in
    if is_empty trimmed
    then err literal_empty
    else if starts_with b'"' trimmed
    then (if not (last_is b'"' trimmed) || shorter_than_two trimmed
        then err (not_double_quoted token)
        else quoted_literal token trimmed (unquote trimmed))
    else if text_eq trimmed (codes "true")
    then ok (type_bool, bool true)
    else if text_eq trimmed (codes "false")
    then ok (type_bool, bool false)
    else bare_literal trimmed (parse_int trimmed)

-- strings.Cut at the first `c`.
cut : ℕ → Text → Option (Text × Text)
cut c [] = none
cut c (d ∷ s) =
    let rest = cut c s in
    if d == c then some ([], s) else (elim rest [ none ↦ none | some (a, b) ↦ some (d ∷ a, b) ])

formal_field : Text → Text → Text → Result TokenError TemplateField
formal_field token name type = do
  fail_if (is_empty name) (formal_no_name token)
  fail_if (is_empty type) (formal_no_type token)
  fail_if (not (is_supported_value_type type)) (formal_unsupported_type token type)
  ok (record { kind = field_formal; type = type; name = name; value = nil })

formal_parts : Text → Option (Text × Text) → Result TokenError TemplateField
unfolding formal_field
formal_parts token none = err (formal_shape token)
formal_parts token (some (name, type)) = formal_field token (trim_space name) (trim_space type)

abbrev or_whole : Text → Option Text → Text
or_whole s none = s
or_whole s (some rest) = rest

parse_formal_token : Text → Result TokenError TemplateField
unfolding formal_parts cut
parse_formal_token token =
    formal_parts token (cut b':' (trim_space (or_whole token (cut_prefix (b'?' ∷ []) token))))

unfoldable pub parse_template_field_token : Text → Result TokenError TemplateField
unfolding parse_formal_token starts_with
parse_template_field_token token = if starts_with b'?' token then parse_formal_token token else (do
  (type, value) ← parse_literal_token token
  ok (record { kind = field_actual; type = type; name = []; value = value }))

-- The loops over the parts.
parse_tuple_parts : ℕ → List Text → Result SpecError (List TupleField)
parse_tuple_parts i [] = ok []
parse_tuple_parts i (part ∷ parts) = do
  (type, value) ← wrap (field_error i) (parse_literal_token part)
  rest ← parse_tuple_parts (i + 1) parts
  ok (record { type = type; value = value } ∷ rest)

parse_template_parts : ℕ → List Text → Result SpecError (List TemplateField)
parse_template_parts i [] = ok []
parse_template_parts i (part ∷ parts) = do
  field ← wrap (field_error i) (parse_template_field_token part)
  rest ← parse_template_parts (i + 1) parts
  ok (field ∷ rest)

unfoldable pub parse_tuple_spec : Text → Result SpecError Tuple
unfolding parse_tuple_parts
parse_tuple_spec spec = do
  parts ← split_spec_fields spec
  fields ← parse_tuple_parts 0 parts
  wrap normalize_error (normalize_tuple (record { fields = fields }))

unfoldable pub parse_template_spec : Text → Result SpecError Template
unfolding parse_template_parts
parse_template_spec spec = do
  parts ← split_spec_fields spec
  fields ← parse_template_parts 0 parts
  wrap normalize_error (normalize_template (record { fields = fields }))
