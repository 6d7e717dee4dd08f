-- ===== src/Tests/Specs.antt =====
-- The DSL of the client: cmd/tuplespacectl/cmds/common.go.
use tuplespace.Base.{◌≡◌, refl, true, [], ◌∷◌, codes, ok, err, pos, text_eq, trim_space, cut_prefix}
use tuplespace.Strconv.{parse_int}
use tuplespace.Strconv.Quoted.{unquote}
use tuplespace.Types.{
  nil, string, bool, int64, Tuple, Template, field_actual, field_formal, type_string, type_int,
  type_bool, normalize_int, normalize_value, normalize_tuple, normalize_template,
  normalize_template_value, is_supported_value_type,
}
use tuplespace.Validation.{validate_tuple, validate_template}
use tuplespace.Dsl.{
  parse_tuple_spec, parse_template_spec, parse_literal_token, parse_template_field_token,
  split_spec_fields, spec_unterminated, field_error, formal_shape,
}
use tuplespace.Dsl.Checked.{parse_tuple_spec-validate_tuple, parse_template_spec-validate_template}

abbrev pub parsed : Tuple
parsed = record {
  fields =
      record { type = type_string; value = string (codes "job with spaces") }
      ∷ record { type = type_int; value = int64 (pos 42) }
      ∷ record { type = type_bool; value = bool true }
      ∷ record { type = type_string; value = string (codes "worker-1") }
      ∷ record { type = type_string; value = string (codes "123") }
      ∷ [];
}

-- TestParseTupleSpec
pub parse_tuple_spec_test :
    parse_tuple_spec (codes "(\"job with spaces\",42,true,worker-1,\"123\")") ≡ ok parsed
unfolding parse_tuple_spec split_spec_fields parse_literal_token trim_space text_eq parse_int
    unquote normalize_tuple normalize_value normalize_int
parse_tuple_spec_test = refl

abbrev asked : Template
asked = record {
  fields =
      record { kind = field_actual; type = type_string; name = []; value = string (codes "job") }
      ∷ record { kind = field_formal; type = type_int; name = codes "id"; value = nil }
      ∷ record { kind = field_formal; type = type_bool; name = codes "ready"; value = nil }
      ∷ record { kind = field_actual; type = type_string; name = []; value = string (codes "123") }
      ∷ [];
}

-- TestParseTemplateSpec
parse_template_spec_test : parse_template_spec (codes "job,?id:int,?ready:bool,\"123\"") ≡ ok asked
unfolding parse_template_spec split_spec_fields parse_template_field_token parse_literal_token
    trim_space cut_prefix text_eq parse_int unquote normalize_template normalize_template_value
    normalize_value is_supported_value_type
parse_template_spec_test = refl

-- TestParseTemplateSpecRejectsMalformedFormalField
formal_test :
    parse_template_spec (codes "job,?id") ≡ err (field_error 1 (formal_shape (codes "?id")))
unfolding parse_template_spec split_spec_fields parse_template_field_token parse_literal_token
    trim_space cut_prefix text_eq parse_int
formal_test = refl

-- TestParseTupleSpecRejectsUnterminatedString
unterminated_test : parse_tuple_spec (codes "\"job,42") ≡ err spec_unterminated
unfolding parse_tuple_spec split_spec_fields trim_space
unterminated_test = refl

parse_tuple_spec-validate_tuple_example : validate_tuple parsed ≡ ok parsed
parse_tuple_spec-validate_tuple_example =
    parse_tuple_spec-validate_tuple (codes "(\"job with spaces\",42,true,worker-1,\"123\")") parsed
      parse_tuple_spec_test

parse_template_spec-validate_template_example : validate_template asked ≡ ok asked
parse_template_spec-validate_template_example =
    parse_template_spec-validate_template (codes "job,?id:int,?ready:bool,\"123\"") asked
      parse_template_spec_test
