-- ===== src/Match/Spec.antt =====
-- What it means for a tuple to fit a template under an assignment of values to names, stated
-- without the loop of `Match` (internal/match/match.go).
use tuplespace.Base.{
  ◌≡◌, ◌⊎◌, Option, none, some, List, [], ◌∷◌, Bool, true, false, ◌||◌, ◌&&◌, Text, text_eq, Zip,
}
use tuplespace.Types.{
  Any, nil, TupleField, Tuple, TemplateField, Template, field_actual, field_formal,
}
use tuplespace.Match.{Bindings, lookup, equal_value}
use tuplespace.Match.Equality.{IsPlain}

-- The types agree; an actual field holds an equal value, a formal field's name stands for the value.
abbrev pub Fits : (Text → Any) → TemplateField → TupleField → Type 0
Fits σ f g =
    (f.type ≡ g.type)
    × (((f.kind ≡ field_actual) × (equal_value f.type f.value g.value ≡ true))
        ⊎ ((f.kind ≡ field_formal) × (σ f.name ≡ g.value)))

abbrev pub Matches : (Text → Any) → Template → Tuple → Type 0
Matches σ template tuple = Zip (Fits σ) template.fields tuple.fields

abbrev pub value_or_nil : Option Any → Any
value_or_nil none = nil
value_or_nil (some v) = v

-- The assignment that bindings stand for.
abbrev pub assigned : Bindings → Text → Any
assigned b name = value_or_nil (lookup name b)

-- `name` is the name of a formal field.
abbrev pub names : Text → List TemplateField → Bool
names name [] = false
names name (f ∷ fs) = (text_eq f.kind field_formal && text_eq f.name name) || names name fs

abbrev pub is_some : Option Any → Bool
is_some none = false
is_some (some v) = true

abbrev pub IsPlainBindings : Bindings → Type 0
IsPlainBindings b = (name : Text) (v : Any) → lookup name b ≡ some v → IsPlain v
