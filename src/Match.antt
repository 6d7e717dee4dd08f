-- ===== src/Match.antt =====
-- internal/match: whether a tuple fits a template, and what the formal fields are bound to
-- (equal.go, match.go).
pub mod Equality
pub mod Spec
pub mod Sound
pub mod Complete
use tuplespace.Base.{
  Bool, true, false, not, Option, none, some, List, [], ◌∷◌, Text, text_eq, ◌==◌, length, int_eq,
  if◌then◌else◌, Result, ok, err,
}
use tuplespace.Types.{
  Any, string, bool, int64, TupleField, Tuple, TemplateField, Template, NormalizeError,
  field_actual, field_formal, normalize_value,
}

abbrev pub bool_eq : Bool → Bool → Bool
bool_eq true b = b
bool_eq false b = not b

-- `==` on two `any` values that `NormalizeValue` returned: a string, an int64 or a bool each.
unfoldable pub any_eq : Any → Any → Bool
any_eq (string s) (string t) = text_eq s t
any_eq (int64 m) (int64 n) = int_eq m n
any_eq (bool a) (bool b) = bool_eq a b
any_eq _ _ = false

normalized_eq : Result NormalizeError Any → Result NormalizeError Any → Bool
unfolding any_eq
normalized_eq (ok a) (ok b) = any_eq a b
normalized_eq (ok a) (err e) = false
normalized_eq (err e) r = false

unfoldable pub equal_value : Text → Any → Any → Bool
unfolding normalized_eq
equal_value t left right = normalized_eq (normalize_value t left) (normalize_value t right)

-- `map[string]any`; the program never iterates over it.
abbrev pub Bindings : Type 0
Bindings = List (Text × Any)

unfoldable pub lookup : Text → Bindings → Option Any
lookup name [] = none
lookup name ((n, v) ∷ b) = if text_eq n name then some v else lookup name b

infixl 5 ◌>>=◌
abbrev ◌>>=◌ : {A B : Type 0} → Option A → (A → Option B) → Option B
none >>= f = none
some a >>= f = f a

-- A formal field whose name has a value already, or has none yet.
bind : Bindings → Option Any → TemplateField → TupleField → Option Bindings
bind b (some existing) f g = if equal_value f.type existing g.value then some b else none
bind b none f g = some ((f.name, g.value) ∷ b)

-- One round of the loop: the bindings after it, or `none` for `return nil, false`.
unfoldable pub match_field : Bindings → TemplateField → TupleField → Option Bindings
unfolding bind
match_field b f g =
    if not (text_eq f.type g.type)
    then none
    else if text_eq f.kind field_actual
    then (if equal_value f.type f.value g.value then some b else none)
    else if text_eq f.kind field_formal
    then bind b (lookup f.name b) f g
    else none

match_fields : Bindings → List TemplateField → List TupleField → Option Bindings
match_fields b (f ∷ fs) (g ∷ gs) = do b' ← match_field b f g; match_fields b' fs gs
match_fields b _ _ = some b

unfoldable pub match : Template → Tuple → Option Bindings
unfolding match_fields match_field
match template tuple =
    if not (length template.fields == length tuple.fields)
    then none
    else match_fields [] template.fields tuple.fields
