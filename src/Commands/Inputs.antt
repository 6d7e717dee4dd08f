-- ===== src/Commands/Inputs.antt =====
-- The tuples and templates that a command is given: by a file, by a spec, or by arguments
-- (cmd/tuplespacectl/cmds/common.go). Reading a file and decoding JSON are parameters.
pub mod Chosen
use tuplespace.Base.{
  ℕ, suc, ◌+◌, Bool, true, false, ◌&&◌, not, Option, none, some, List, [], ◌∷◌, Text, is_empty, ltb,
  Result, ok, err, ◌>>=◌, ◌>>◌, wrap, or_fail, fail_if, if◌then◌else◌,
}
use tuplespace.Types.{Tuple, Template, FieldError, normalize_tuple, normalize_template}
use tuplespace.Dsl.{SpecError, parse_tuple_spec, parse_template_spec}

pub data Error : Type 0 where
  both_given none_given too_many_sources read_failed decode_failed : Error
  normalize_failed : FieldError → Error
  spec_failed : SpecError → Error
  argument_failed : ℕ → SpecError → Error

abbrev pub count_given : Bool → ℕ
count_given true = 0
count_given false = 1

-- The number of sources that are given.
abbrev pub sources_of : Text → Text → List Text → ℕ
sources_of path spec specs =
    count_given (is_empty path) + count_given (is_empty spec) + count_given (is_empty specs)

-- The loop over the arguments, from the argument `i` on.
unfoldable pub parse_tuple_specs : ℕ → List Text → Result Error (List Tuple)
parse_tuple_specs i [] = ok []
parse_tuple_specs i (s ∷ ss) = do
  tuple ← wrap (argument_failed i) (parse_tuple_spec s)
  rest ← parse_tuple_specs (i + 1) ss
  ok (tuple ∷ rest)

module _ (read_file : Text → Option Text) (decode : Text → Option Tuple) where
  unfoldable pub load_tuple : Text → Result Error Tuple
  load_tuple path = do
    body ← or_fail read_failed (read_file path)
    tuple ← or_fail decode_failed (decode body)
    wrap normalize_failed (normalize_tuple tuple)

  unfoldable pub load_tuple_input : Text → Text → Result Error Tuple
  load_tuple_input path spec =
      if not (is_empty path) && not (is_empty spec)
      then err both_given
      else if not (is_empty path)
      then load_tuple path
      else if not (is_empty spec)
      then wrap spec_failed (parse_tuple_spec spec)
      else err none_given

  unfoldable pub load_tuple_inputs : Text → Text → List Text → Result Error (List Tuple)
  load_tuple_inputs path spec specs = do
    fail_if (ltb 1 (sources_of path spec specs)) too_many_sources
    if not (is_empty path)
        then (do tuple ← load_tuple path; ok (tuple ∷ []))
        else if not (is_empty spec)
        then (do tuple ← wrap spec_failed (parse_tuple_spec spec); ok (tuple ∷ []))
        else if not (is_empty specs)
        then parse_tuple_specs 0 specs
        else err none_given

unfoldable pub parse_template_specs : ℕ → List Text → Result Error (List Template)
parse_template_specs i [] = ok []
parse_template_specs i (s ∷ ss) = do
  template ← wrap (argument_failed i) (parse_template_spec s)
  rest ← parse_template_specs (i + 1) ss
  ok (template ∷ rest)

module _ (read_file : Text → Option Text) (decode : Text → Option Template) where
  unfoldable pub load_template : Text → Result Error Template
  load_template path = do
    body ← or_fail read_failed (read_file path)
    template ← or_fail decode_failed (decode body)
    wrap normalize_failed (normalize_template template)

  unfoldable pub load_template_input : Text → Text → Result Error Template
  load_template_input path spec =
      if not (is_empty path) && not (is_empty spec)
      then err both_given
      else if not (is_empty path)
      then load_template path
      else if not (is_empty spec)
      then wrap spec_failed (parse_template_spec spec)
      else err none_given

  unfoldable pub load_template_inputs : Text → Text → List Text → Result Error (List Template)
  load_template_inputs path spec specs = do
    fail_if (ltb 1 (sources_of path spec specs)) too_many_sources
    if not (is_empty path)
        then (do template ← load_template path; ok (template ∷ []))
        else if not (is_empty spec)
        then (do template ← wrap spec_failed (parse_template_spec spec); ok (template ∷ []))
        else if not (is_empty specs)
        then parse_template_specs 0 specs
        else err none_given
