-- ===== src/Tests/Tuples.antt =====
-- Values, tuples and templates: internal/types, internal/validation and internal/match.
use tuplespace.Base.{
  ◌≡◌, ◌↔◌, refl, inl, inr, some, List, [], ◌∷◌, Text, codes, Zip, ok, err, pos, text_eq,
}
use tuplespace.Types.{
  Any, nil, string, int64, json_number, uint64, Tuple, Template, field_actual, field_formal,
  type_string, type_int, normalize_int, normalize_value, normalize_tuple, normalize_template,
  bad_json_number, is_supported_value_type, normalize_template_value,
}
use tuplespace.Strconv.{parse_int}
use tuplespace.Types.Fields.{IsNormalTuple, TupleOutcome, types, normalize_tuple-TupleOutcome}
use tuplespace.Types.Templates.{TemplateOutcome, normalize_template-TemplateOutcome, SameHead}
use tuplespace.Validation.{validate_space, validate_tuple, validate_template}
use tuplespace.Validation.Space.{IsSpaceName, validate_space_iff}
use tuplespace.Validation.Accepted.{
  IsStorable, IsWellFormed, validate_tuple-IsStorable, validate_template-IsWellFormed,
}
use tuplespace.Match.{match, match_field, equal_value, lookup}
use tuplespace.Match.Spec.{Matches, assigned, names, is_some}
use tuplespace.Match.Sound.{match_sound}
use tuplespace.Match.Complete.{Agrees, match_complete}

-- job,"42" as a client sends it: the number is a json.Number.
abbrev pub sent : Tuple
sent = record {
  fields =
      record { type = type_string; value = string (codes "job") }
      ∷ record { type = type_int; value = json_number (codes "42") }
      ∷ [];
}

abbrev pub stored : Tuple
stored = record {
  fields =
      record { type = type_string; value = string (codes "job") }
      ∷ record { type = type_int; value = int64 (pos 42) }
      ∷ [];
}

abbrev pub wanted : Template
wanted = record {
  fields =
      record { kind = field_actual; type = type_string; name = []; value = string (codes "job") }
      ∷ record { kind = field_formal; type = type_int; name = codes "id"; value = nil }
      ∷ [];
}

pub validate_sent : validate_tuple sent ≡ ok stored
unfolding validate_tuple normalize_tuple normalize_value normalize_int text_eq
    is_supported_value_type parse_int
validate_sent = refl

pub validate_wanted : validate_template wanted ≡ ok wanted
unfolding validate_template normalize_template normalize_template_value normalize_value text_eq
    is_supported_value_type
validate_wanted = refl

pub match_found : match wanted stored ≡ some ((codes "id", int64 (pos 42)) ∷ [])
unfolding match match_field equal_value normalize_value normalize_int text_eq lookup
match_found = refl

pub stored-IsNormal : IsNormalTuple stored
stored-IsNormal = (refl, (refl, tt))

match_sound_example :
    Matches (assigned ((codes "id", int64 (pos 42)) ∷ [])) wanted stored
    × ((name : Text)
        → is_some (lookup name ((codes "id", int64 (pos 42)) ∷ [])) ≡ names name wanted.fields)
match_sound_example = match_sound wanted stored _ stored-IsNormal match_found

abbrev answer : Text → Any
answer name = int64 (pos 42)

stored-Matches : Matches answer wanted stored
unfolding equal_value normalize_value text_eq
stored-Matches = ((refl, inl (refl, refl)), ((refl, inr (refl, refl)), tt))

match_complete_example : (b : List (Text × Any)) × (match wanted stored ≡ some b) × Agrees answer b
match_complete_example = match_complete answer wanted stored stored-IsNormal stored-Matches

validate_tuple-IsStorable_example : IsStorable stored × (types stored.fields ≡ types sent.fields)
validate_tuple-IsStorable_example = validate_tuple-IsStorable sent stored validate_sent

validate_template-IsWellFormed_example :
    IsWellFormed wanted × Zip SameHead wanted.fields wanted.fields
validate_template-IsWellFormed_example =
    validate_template-IsWellFormed wanted wanted validate_wanted

abbrev broken : Tuple
broken = record { fields = record { type = type_int; value = json_number (codes "4.5") } ∷ [] }

broken_refused :
    normalize_tuple broken ≡ err (record { index = 0; cause = bad_json_number (codes "4.5") })
unfolding normalize_tuple normalize_value normalize_int text_eq parse_int
broken_refused = refl

normalize_tuple-TupleOutcome_example : TupleOutcome broken (normalize_tuple broken)
normalize_tuple-TupleOutcome_example = normalize_tuple-TupleOutcome broken

normalize_template-TemplateOutcome_example : TemplateOutcome wanted (normalize_template wanted)
normalize_template-TemplateOutcome_example = normalize_template-TemplateOutcome wanted

normalize_big : normalize_int (uint64 9) ≡ ok (pos 9)
unfolding normalize_int
normalize_big = refl

normalize_number : normalize_value type_int (json_number (codes "42")) ≡ ok (int64 (pos 42))
unfolding normalize_value normalize_int text_eq parse_int
normalize_number = refl

validate_space_iff_example :
    (validate_space (codes "jobs-1") ≡ ok tt) ↔ IsSpaceName (codes "jobs-1")
validate_space_iff_example = validate_space_iff (codes "jobs-1")
