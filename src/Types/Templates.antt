-- ===== src/Types/Templates.antt =====
-- `NormalizeTemplate` (internal/types/normalize.go): the loop over the fields of a template.
use tuplespace.Base.{
  ℕ, ◌+◌, ◌≡◌, refl, inl, inr, List, [], ◌∷◌, text_eq, All, Zip, Result, ok, err, wrap, ◌>>=◌,
  arith, Bool-cases, Bool, true, false,
}
use tuplespace.Types.{
  Any, nil, TemplateField, Template, NormalizeError, FieldError, field_actual, normalize_value,
  normalize_template_value, normalize_template_fields, normalize_template,
}
use tuplespace.Types.Normal.{IsNormal, normalize_value-IsNormal, normalize_value_of_IsNormal}
use tuplespace.Types.Fields.{FirstRefusal}

abbrev pub is_actual : TemplateField → Bool
is_actual f = text_eq f.kind field_actual

-- An actual field holds a value of its type, any other field holds none.
abbrev pub IsNormalTemplateField : TemplateField → Type 0
IsNormalTemplateField f =
    (is_actual f ≡ true → IsNormal f.type f.value) × (is_actual f ≡ false → f.value ≡ nil)

abbrev pub IsNormalTemplate : Template → Type 0
IsNormalTemplate t = All IsNormalTemplateField t.fields

-- Nothing but the value may differ.
abbrev pub SameHead : TemplateField → TemplateField → Type 0
SameHead f g = (f.kind ≡ g.kind) × (f.type ≡ g.type) × (f.name ≡ g.name)

abbrev Outcome : ℕ → List TemplateField → Result FieldError (List TemplateField) → Type 0
Outcome i fs (ok gs) = All IsNormalTemplateField gs × Zip SameHead fs gs
Outcome i fs (err e) = FirstRefusal normalize_template_value i fs e

abbrev with_value : TemplateField → Any → TemplateField
with_value f v = record { kind = f.kind; type = f.type; name = f.name; value = v }

with_value-IsNormalTemplateField :
    (f : TemplateField) (v : Any)
    → normalize_template_value f ≡ ok v
    → IsNormalTemplateField (with_value f v)
unfolding normalize_template_value
with_value-IsNormalTemplateField f v e = elim (Bool-cases (is_actual f)) [
  | inl a ↦
      let e' : normalize_value f.type f.value ≡ ok v = rw a at e in
      (λ _. normalize_value-IsNormal f.value f.type e', λ n. cc)
  | inr n ↦ (λ a. cc, λ _. ground arith)
]

outcome_step :
    (i : ℕ) (f : TemplateField) (fs : List TemplateField) (r : Result NormalizeError Any)
    (rs : Result FieldError (List TemplateField))
    → normalize_template_value f ≡ r
    → Outcome (i + 1) fs rs
    → Outcome i (f ∷ fs) (do
      value ← wrap (λ e. record { index = i; cause = e }) r
      rest ← rs
      ok (with_value f value ∷ rest))
outcome_step i f fs (err c) rs e h = inl (refl, e)
outcome_step i f fs (ok v) (err c) e h = inr ((v, e), h)
outcome_step i f fs (ok v) (ok gs) e h =
    ((with_value-IsNormalTemplateField f v e, h.0), ((refl, refl, refl), h.1))

normalize_template_fields-Outcome :
    (i : ℕ) (fs : List TemplateField) → Outcome i fs (normalize_template_fields i fs)
unfolding normalize_template_fields
normalize_template_fields-Outcome i [] = (tt, tt)
normalize_template_fields-Outcome i (f ∷ fs) =
    outcome_step i f fs (normalize_template_value f) (normalize_template_fields (i + 1) fs) refl
      (normalize_template_fields-Outcome (i + 1) fs)

-- What `NormalizeTemplate` may answer for a template.
abbrev pub TemplateOutcome : Template → Result FieldError Template → Type 0
TemplateOutcome t (ok u) = IsNormalTemplate u × Zip SameHead t.fields u.fields
TemplateOutcome t (err e) = FirstRefusal normalize_template_value 0 t.fields e

template_outcome :
    (t : Template) (rs : Result FieldError (List TemplateField))
    → Outcome 0 t.fields rs
    → TemplateOutcome t (do fields ← rs; ok (record { fields = fields }))
template_outcome t (ok gs) h = h
template_outcome t (err e) h = h

-- `NormalizeTemplate` keeps the kind, type and name of each field, gives each actual field a value
-- of its type and each other field none; or it fails, and the error names the first refused field.
pub normalize_template-TemplateOutcome : (t : Template) → TemplateOutcome t (normalize_template t)
unfolding normalize_template
normalize_template-TemplateOutcome t =
    template_outcome t (normalize_template_fields 0 t.fields)
      (normalize_template_fields-Outcome 0 t.fields)

normalize_template_value_of_IsNormal :
    (f : TemplateField) → IsNormalTemplateField f → normalize_template_value f ≡ ok f.value
unfolding normalize_template_value
normalize_template_value_of_IsNormal f (actual, rest) = elim (Bool-cases (is_actual f)) [
  | inl a ↦ rw a (normalize_value_of_IsNormal f.type f.value (actual a))
  | inr n ↦ rw n (ground (arith, rest n))
]

normalize_template_fields_of_IsNormal :
    (i : ℕ) (fs : List TemplateField)
    → All IsNormalTemplateField fs
    → normalize_template_fields i fs ≡ ok fs
unfolding normalize_template_fields
normalize_template_fields_of_IsNormal i [] h = refl
normalize_template_fields_of_IsNormal i (f ∷ fs) (p, h) =
    rw (normalize_template_value_of_IsNormal f p)
      (rw (normalize_template_fields_of_IsNormal (i + 1) fs h))

-- A normalised template is left as it is.
pub normalize_template_of_IsNormal :
    (t : Template) → IsNormalTemplate t → normalize_template t ≡ ok t
unfolding normalize_template
normalize_template_of_IsNormal t h = rw (normalize_template_fields_of_IsNormal 0 t.fields h)
