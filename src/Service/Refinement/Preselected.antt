-- ===== src/Service/Refinement/Preselected.antt =====
-- The candidates of a template have the oldest match (internal/store/candidate_query.go and the loop of
-- internal/service/service.go).
use tuplespace.Base.{
  ℕ, zero, suc, ◌≤◌, ◌≡◌, inl, inr, refl, ap, true, some, List, [], ◌∷◌, Text, text_eq, text_eq_iff,
  text_eq_refl, ==_refl, length, keep, take, All, Zip, int_eq_iff, arith, Bool-cases, Option-cases,
}
use tuplespace.Types.{
  Any, nil, string, bool, int64, TupleField, TemplateField, Template, field_actual,
}
use tuplespace.Types.Normal.{IsNormal}
use tuplespace.Types.Fields.{IsNormalField, IsNormalTuple}
use tuplespace.Match.{Bindings, match}
use tuplespace.Match.Equality.{equal_value_iff, IsNormal-IsPlain}
use tuplespace.Match.Spec.{Fits, assigned}
use tuplespace.Match.Sound.{match_sound}
use tuplespace.Store.{StoredTuple}
use tuplespace.Store.Query.Printed.{HasValues}
use tuplespace.Relational.Select.{column_holds}
use tuplespace.Relational.Represents.{columns_of}
use tuplespace.Relational.Candidates.{agrees_field, agrees, preselects}
use tuplespace.Service.{first_match}
use tuplespace.Space.{Contents, oldest}

holds_self : (t : Text) (v : Any) → IsNormal t v → column_holds (columns_of v) v ≡ true
unfolding column_holds
holds_self t (string s) n = text_eq_refl s
holds_self t (int64 z) n = (int_eq_iff z z).1 refl
holds_self t (bool b) n = ground arith
holds_self t nil n = absurd n
holds_self t _ n = absurd n

Fits-agrees :
    (σ : Text → Any) (t : TemplateField) (f : TupleField)
    → (text_eq t.kind field_actual ≡ true → IsNormal t.type t.value)
    → IsNormalField f
    → Fits σ t f
    → agrees_field t f ≡ true
unfolding text_eq
Fits-agrees σ t f value normal (type, inl (kind, equal)) =
    let actual : text_eq t.kind field_actual ≡ true = (text_eq_iff t.kind field_actual).1 kind in
    let plain = IsNormal-IsPlain t.type t.value (value actual) in
    let here : IsNormal t.type f.value = rw type normal in
    let same : t.value ≡ f.value = (equal_value_iff t.type t.value f.value plain here).0 equal in
    let type' : text_eq f.type t.type ≡ true = rw (← type) (text_eq_refl t.type) in
    rw actual (rw type' (rw same (holds_self f.type f.value normal)))
Fits-agrees σ t f value normal (type, inr (kind, bound)) = rw kind refl

matches_agree :
    (σ : Text → Any) (ts : List TemplateField) (fs : List TupleField)
    → HasValues ts
    → All IsNormalField fs
    → Zip (Fits σ) ts fs
    → (agrees ts fs ≡ true) × (length fs ≡ length ts)
matches_agree σ [] [] v n h = (refl, refl)
matches_agree σ [] (f ∷ fs) v n h = absurd h
matches_agree σ (t ∷ ts) [] v n h = absurd h
matches_agree σ (t ∷ ts) (f ∷ fs) (v, vs) (n, ns) (h, hs) =
    let (rest, same) = matches_agree σ ts fs vs ns hs in
    (rw (Fits-agrees σ t f v n h) rest, ap suc same)

-- A tuple of the space that matches is preselected.
pub match-preselects :
    (space : Text) (t : Template) (e : StoredTuple) (b : Bindings)
    → HasValues t.fields
    → IsNormalTuple e.tuple
    → text_eq e.space space ≡ true
    → match t e.tuple ≡ some b
    → preselects space t e ≡ true
match-preselects space t e b values normal here h =
    let fits = (match_sound t e.tuple b normal h).0 in
    let (agree, same) = matches_agree (assigned b) t.fields e.tuple.fields values normal fits in
    rw here (rw same (rw (==_refl (length t.fields)) agree))

module _ (space : Text) (t : Template) (values : HasValues t.fields) where
  -- The first match of the preselected tuples is the oldest match.
  pub first_match-oldest :
      (s : Contents)
      → All (λ e. IsNormalTuple e.tuple) s
      → first_match t (keep (preselects space t) s) ≡ oldest space t s
  unfolding first_match oldest
  first_match-oldest [] n = refl
  first_match-oldest (e ∷ s) (n, ns) = elim (Bool-cases (text_eq e.space space)) [
    | inr other ↦ rw other (first_match-oldest s ns)
    | inl here ↦ elim (Option-cases (match t e.tuple)) [
      | inr (b, h) ↦
          rw (match-preselects space t e b values n here h) (rw here (rw (h, first_match) refl))
      | inl h ↦ elim (Bool-cases (preselects space t e)) [
        | inl p ↦ rw p (rw here (rw (h, first_match) (first_match-oldest s ns)))
        | inr p ↦ rw p (rw here (rw h (first_match-oldest s ns)))
      ]
    ]
  ]

pub take_all {ℓ} : {A : Type ℓ} (n : ℕ) (xs : List A) → length xs ≤ n → take n xs ≡ xs
take_all zero [] h = refl
take_all (suc n) [] h = refl
take_all zero (x ∷ xs) h = absurd (omega arith)
take_all (suc n) (x ∷ xs) h = ap (◌∷◌ x) (take_all n xs (omega arith))
