-- ===== src/Types/Fields.antt =====
-- `NormalizeTuple` and `NormalizeTemplate` (internal/types/normalize.go): the loops over the fields.
use tuplespace.Base.{
  ℕ, ◌+◌, ◌≡◌, refl, ap, ◌⊎◌, inl, inr, List, [], ◌∷◌, map, Text, All, Result, ok, err, wrap, ◌>>=◌,
}
use tuplespace.Types.{
  Any, TupleField, Tuple, NormalizeError, FieldError, normalize_value, normalize_fields,
  normalize_tuple,
}
use tuplespace.Types.Normal.{IsNormal, normalize_value-IsNormal, normalize_value_of_IsNormal}

abbrev pub IsNormalField : TupleField → Type 0
IsNormalField f = IsNormal f.type f.value

abbrev pub IsNormalTuple : Tuple → Type 0
IsNormalTuple t = All IsNormalField t.fields

abbrev pub types : List TupleField → List Text
types = map (λ f. f.type)

-- The error names the first element that `norm` refuses, and why.
abbrev pub FirstRefusal {ℓ} :
    {A : Type ℓ} → (A → Result NormalizeError Any) → ℕ → List A → FieldError → Type 0
FirstRefusal norm i [] e = ⊥
FirstRefusal norm i (f ∷ fs) e =
    ((e.index ≡ i) × (norm f ≡ err e.cause))
    ⊎ (((v : Any) × (norm f ≡ ok v)) × FirstRefusal norm (i + 1) fs e)

abbrev pub normalize_field : TupleField → Result NormalizeError Any
normalize_field f = normalize_value f.type f.value

abbrev Outcome : ℕ → List TupleField → Result FieldError (List TupleField) → Type 0
Outcome i fs (ok gs) = All IsNormalField gs × (types gs ≡ types fs)
Outcome i fs (err e) = FirstRefusal normalize_field i fs e

outcome_step :
    (i : ℕ) (f : TupleField) (fs : List TupleField) (r : Result NormalizeError Any)
    (rs : Result FieldError (List TupleField))
    → normalize_value f.type f.value ≡ r
    → Outcome (i + 1) fs rs
    → Outcome i (f ∷ fs) (do
      value ← wrap (λ e. record { index = i; cause = e }) r
      rest ← rs
      ok (record { type = f.type; value = value } ∷ rest))
outcome_step i f fs (err c) rs e h = inl (refl, e)
outcome_step i f fs (ok v) (err c) e h = inr ((v, e), h)
outcome_step i f fs (ok v) (ok gs) e h =
    ((normalize_value-IsNormal f.value f.type e, h.0), ap (◌∷◌ f.type) h.1)

normalize_fields-Outcome : (i : ℕ) (fs : List TupleField) → Outcome i fs (normalize_fields i fs)
unfolding normalize_fields
normalize_fields-Outcome i [] = (tt, refl)
normalize_fields-Outcome i (f ∷ fs) =
    outcome_step i f fs (normalize_value f.type f.value) (normalize_fields (i + 1) fs) refl
      (normalize_fields-Outcome (i + 1) fs)

-- What `NormalizeTuple` may answer for a tuple.
abbrev pub TupleOutcome : Tuple → Result FieldError Tuple → Type 0
TupleOutcome t (ok u) = IsNormalTuple u × (types u.fields ≡ types t.fields)
TupleOutcome t (err e) = FirstRefusal normalize_field 0 t.fields e

tuple_outcome :
    (t : Tuple) (rs : Result FieldError (List TupleField))
    → Outcome 0 t.fields rs
    → TupleOutcome t (do fields ← rs; ok (record { fields = fields }))
tuple_outcome t (ok gs) h = h
tuple_outcome t (err e) h = h

-- `NormalizeTuple` gives fields of the same types, each with a value of its type; or it fails, and
-- the error names the first field whose value is refused, with the reason for it.
pub normalize_tuple-TupleOutcome : (t : Tuple) → TupleOutcome t (normalize_tuple t)
unfolding normalize_tuple
normalize_tuple-TupleOutcome t =
    tuple_outcome t (normalize_fields 0 t.fields) (normalize_fields-Outcome 0 t.fields)

pub normalize_tuple-IsNormalTuple :
    (t u : Tuple) → normalize_tuple t ≡ ok u → IsNormalTuple u × (types u.fields ≡ types t.fields)
normalize_tuple-IsNormalTuple t u e = rw e at (normalize_tuple-TupleOutcome t)

normalize_fields_of_IsNormal :
    (i : ℕ) (fs : List TupleField) → All IsNormalField fs → normalize_fields i fs ≡ ok fs
unfolding normalize_fields
normalize_fields_of_IsNormal i [] h = refl
normalize_fields_of_IsNormal i (f ∷ fs) (p, h) =
    rw (normalize_value_of_IsNormal f.type f.value p)
      (rw (normalize_fields_of_IsNormal (i + 1) fs h))

-- A normalised tuple is left as it is.
pub normalize_tuple_of_IsNormal : (t : Tuple) → IsNormalTuple t → normalize_tuple t ≡ ok t
unfolding normalize_tuple
normalize_tuple_of_IsNormal t h = rw (normalize_fields_of_IsNormal 0 t.fields h)
