-- ===== src/Validation/Accepted.antt =====
-- What `ValidateTuple` and `ValidateTemplate` let through (internal/validation/tuple.go and
-- template.go).
use tuplespace.Base.{
  ℕ, ◌+◌, ◌≡◌, ◌≢◌, ◌⊎◌, inl, inr, refl, true, false, List, [], ◌∷◌, Text, codes, text_eq,
  text_eq_iff, is_empty, All, Zip, Result, ok, err, fail_if, arith, >>-eq-ok, fail_if-eq-ok,
}
use tuplespace.Types.{
  Any, nil, string, bool, int64, TupleField, Tuple, TemplateField, Template, FieldError,
  field_actual, field_formal, is_supported_value_type, normalize_tuple, normalize_template,
}
use tuplespace.Types.Normal.{IsNormal}
use tuplespace.Types.Fields.{
  IsNormalField, IsNormalTuple, types, normalize_tuple-IsNormalTuple, normalize_tuple_of_IsNormal,
}
use tuplespace.Types.Templates.{
  is_actual, IsNormalTemplateField, SameHead, normalize_template-TemplateOutcome,
  normalize_template_of_IsNormal,
}
use tuplespace.Validation.{
  check_types, validate_tuple, is_nil, check_field, check_template_fields, validate_template,
  reject,
}

-- A tuple that the store can write: fields, each with a value of its type.
abbrev pub IsStorable : Tuple → Type 0
IsStorable t = (t.fields ≢ []) × IsNormalTuple t

pub reject-eq-ok {ℓ} :
    {A : Type ℓ} (code : Text) (r : Result FieldError A) {a : A} → reject code r ≡ ok a → r ≡ ok a
reject-eq-ok code (ok a) h = ground arith
reject-eq-ok code (err e) h = cc

pub is_empty-eq-false {ℓ} : {A : Type ℓ} (xs : List A) → is_empty xs ≡ false → xs ≢ []
is_empty-eq-false [] h = cc
is_empty-eq-false (x ∷ xs) h = λ p. cc

pub types-ne-nil : (fs gs : List TupleField) → types gs ≡ types fs → fs ≢ [] → gs ≢ []
types-ne-nil [] gs e h = absurd (h refl)
types-ne-nil (f ∷ fs) [] e h = cc
types-ne-nil (f ∷ fs) (g ∷ gs) e h = λ p. cc

-- An accepted tuple comes back with fields of the given types, at least one, each with a value of
-- its type.
pub validate_tuple-IsStorable :
    (t u : Tuple) → validate_tuple t ≡ ok u → IsStorable u × (types u.fields ≡ types t.fields)
unfolding validate_tuple
validate_tuple-IsStorable t u h =
    let (given, h₁) = >>-eq-ok (fail_if (is_empty t.fields) _) _ h in
    let (_, h₂) = >>-eq-ok (check_types 0 t.fields) _ h₁ in
    let (normal, same) =
      normalize_tuple-IsNormalTuple t u
        (reject-eq-ok (codes "invalid_tuple") (normalize_tuple t) h₂) in
    (
      (
        types-ne-nil t.fields u.fields same (is_empty-eq-false t.fields (fail_if-eq-ok _ _ given)),
        normal,
      ),
      same,
    )

pub IsNormal-supported : (t : Text) (v : Any) → IsNormal t v → is_supported_value_type t ≡ true
unfolding is_supported_value_type text_eq
IsNormal-supported t (string s) e = rw e
IsNormal-supported t (int64 z) e = rw e
IsNormal-supported t (bool b) e = rw e
IsNormal-supported t nil e = absurd e
IsNormal-supported t _ e = absurd e

check_types_of_IsNormal :
    (i : ℕ) (fs : List TupleField) → All IsNormalField fs → check_types i fs ≡ ok tt
unfolding check_types
check_types_of_IsNormal i [] h = refl
check_types_of_IsNormal i (f ∷ fs) (p, h) =
    rw (IsNormal-supported f.type f.value p) (check_types_of_IsNormal (i + 1) fs h)

-- A storable tuple is accepted as it is.
pub validate_tuple_of_IsStorable : (t : Tuple) → IsStorable t → validate_tuple t ≡ ok t
unfolding validate_tuple
validate_tuple_of_IsStorable t (some_field, normal) =
    ground (arith, check_types_of_IsNormal 0 t.fields normal, normalize_tuple_of_IsNormal t normal)

-- An actual field with no name and a value of its type, or a formal field with a name and no value.
abbrev pub IsWellFormedField : TemplateField → Type 0
IsWellFormedField f =
    ((f.kind ≡ field_actual) × (f.name ≡ []) × IsNormal f.type f.value)
    ⊎ ((f.kind ≡ field_formal)
        × (f.name ≢ [])
        × (is_supported_value_type f.type ≡ true)
        × (f.value ≡ nil))

abbrev pub IsWellFormed : Template → Type 0
IsWellFormed t = (t.fields ≢ []) × All IsWellFormedField t.fields

-- The head of a field that `check_field` lets through.
abbrev pub IsCheckedField : TemplateField → Type 0
IsCheckedField f =
    (is_supported_value_type f.type ≡ true)
    × (((f.kind ≡ field_actual) × (f.name ≡ []))
        ⊎ ((f.kind ≡ field_formal) × (f.name ≢ []) × (f.value ≡ nil)))

is_nil-eq-true : (v : Any) → is_nil v ≡ true → v ≡ nil
is_nil-eq-true nil h = refl
is_nil-eq-true _ h = cc

is_empty-eq-true {ℓ} : {A : Type ℓ} (xs : List A) → is_empty xs ≡ true → xs ≡ []
is_empty-eq-true [] h = refl
is_empty-eq-true (x ∷ xs) h = cc

check_field-IsCheckedField :
    (i : ℕ) (f : TemplateField) → check_field i f ≡ ok tt → IsCheckedField f
unfolding check_field
check_field-IsCheckedField i f h = ground (
  arith,
  text_eq_iff f.kind field_actual,
  text_eq_iff f.kind field_formal,
  is_nil-eq-true f.value,
  is_empty-eq-true f.name,
  is_empty-eq-false f.name,
)

check_template_fields-IsCheckedField :
    (i : ℕ) (fs : List TemplateField) → check_template_fields i fs ≡ ok tt → All IsCheckedField fs
unfolding check_template_fields
check_template_fields-IsCheckedField i [] h = tt
check_template_fields-IsCheckedField i (f ∷ fs) h =
    let (here, later) = >>-eq-ok (check_field i f) _ h in
    (check_field-IsCheckedField i f here, check_template_fields-IsCheckedField (i + 1) fs later)

formal-not-actual : (f : TemplateField) → f.kind ≡ field_formal → is_actual f ≡ false
unfolding text_eq
formal-not-actual f e = rw e

actual-is_actual : (f : TemplateField) → f.kind ≡ field_actual → is_actual f ≡ true
unfolding text_eq
actual-is_actual f e = rw e

normal-IsWellFormedField :
    (f g : TemplateField)
    → IsCheckedField f
    → SameHead f g
    → IsNormalTemplateField g
    → IsWellFormedField g
normal-IsWellFormedField f g (supported, inl (kind, name)) (k, t, n) (actual, rest) =
    let kind' : g.kind ≡ field_actual = ground arith in
    inl (kind', ground arith, actual (actual-is_actual g kind'))
normal-IsWellFormedField f g (supported, inr (kind, name, value)) (k, t, n) (actual, rest) =
    let kind' : g.kind ≡ field_formal = ground arith in
    inr (kind', ground arith, ground arith, rest (formal-not-actual g kind'))

pub normal-All :
    (fs gs : List TemplateField)
    → All IsCheckedField fs
    → Zip SameHead fs gs
    → All IsNormalTemplateField gs
    → All IsWellFormedField gs
normal-All [] [] c s n = tt
normal-All [] (g ∷ gs) c s n = absurd s
normal-All (f ∷ fs) [] c s n = absurd s
normal-All (f ∷ fs) (g ∷ gs) (c, cs) (s, ss) (n, ns) =
    (normal-IsWellFormedField f g c s n, normal-All fs gs cs ss ns)

pub Zip-ne-nil : (fs gs : List TemplateField) → Zip SameHead fs gs → fs ≢ [] → gs ≢ []
Zip-ne-nil [] gs z h = absurd (h refl)
Zip-ne-nil (f ∷ fs) [] z h = absurd z
Zip-ne-nil (f ∷ fs) (g ∷ gs) z h = λ p. cc

-- An accepted template comes back well formed, and keeps the kind, type and name of each field.
pub validate_template-IsWellFormed :
    (t u : Template) → validate_template t ≡ ok u → IsWellFormed u × Zip SameHead t.fields u.fields
unfolding validate_template
validate_template-IsWellFormed t u h =
    let (given, h₁) = >>-eq-ok (fail_if (is_empty t.fields) _) _ h in
    let (checked, h₂) = >>-eq-ok (check_template_fields 0 t.fields) _ h₁ in
    let normalized = reject-eq-ok (codes "invalid_template") (normalize_template t) h₂ in
    let (normal, same) = rw normalized at (normalize_template-TemplateOutcome t) in
    let some_field = is_empty-eq-false t.fields (fail_if-eq-ok _ _ given) in
    (
      (
        Zip-ne-nil t.fields u.fields same some_field,
        normal-All t.fields u.fields (check_template_fields-IsCheckedField 0 t.fields checked) same
            normal,
      ),
      same,
    )

ne-nil-is_empty {ℓ} : {A : Type ℓ} (xs : List A) → xs ≢ [] → is_empty xs ≡ false
ne-nil-is_empty [] h = absurd (h refl)
ne-nil-is_empty (x ∷ xs) h = refl

check_field_of_IsWellFormed :
    (i : ℕ) (f : TemplateField) → IsWellFormedField f → check_field i f ≡ ok tt
unfolding check_field text_eq
check_field_of_IsWellFormed i f (inl (kind, name, normal)) =
    rw (kind, name, IsNormal-supported f.type f.value normal)
check_field_of_IsWellFormed i f (inr (kind, name, supported, value)) =
    rw (kind, value, supported) (rw (ne-nil-is_empty f.name name))

check_template_fields_of_IsWellFormed :
    (i : ℕ) (fs : List TemplateField)
    → All IsWellFormedField fs
    → check_template_fields i fs ≡ ok tt
unfolding check_template_fields
check_template_fields_of_IsWellFormed i [] h = refl
check_template_fields_of_IsWellFormed i (f ∷ fs) (p, h) =
    rw (check_field_of_IsWellFormed i f p) (check_template_fields_of_IsWellFormed (i + 1) fs h)

pub IsWellFormed-IsNormalField : (f : TemplateField) → IsWellFormedField f → IsNormalTemplateField f
IsWellFormed-IsNormalField f (inl (kind, name, normal)) =
    (λ _. normal, λ n. let a = actual-is_actual f kind in cc)
IsWellFormed-IsNormalField f (inr (kind, name, supported, value)) =
    (λ a. let n = formal-not-actual f kind in cc, λ _. value)

IsWellFormed-IsNormal :
    (fs : List TemplateField) → All IsWellFormedField fs → All IsNormalTemplateField fs
IsWellFormed-IsNormal [] h = tt
IsWellFormed-IsNormal (f ∷ fs) (p, h) = (IsWellFormed-IsNormalField f p, IsWellFormed-IsNormal fs h)

-- A well-formed template is accepted as it is.
pub validate_template_of_IsWellFormed : (t : Template) → IsWellFormed t → validate_template t ≡ ok t
unfolding validate_template
validate_template_of_IsWellFormed t (some_field, good) = ground (
  arith,
  check_template_fields_of_IsWellFormed 0 t.fields good,
  normalize_template_of_IsNormal t (IsWellFormed-IsNormal t.fields good),
)
