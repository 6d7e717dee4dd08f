-- ===== src/Match/Complete.antt =====
-- `Match` misses no match: whenever some assignment fits, it reports one, with bindings that agree
-- with the assignment (internal/match/match.go).
use tuplespace.Base.{
  suc, ◌≡◌, inl, inr, refl, sym, ap, ◌∙◌, some, List, [], ◌∷◌, true, false, Text, text_eq,
  text_eq_iff, text_eq_refl, Zip, All, length, arith, Bool-cases, Option-cases,
}
use tuplespace.Types.{Any, TupleField, Tuple, TemplateField, Template, field_actual, field_formal}
use tuplespace.Types.Normal.{IsNormal}
use tuplespace.Types.Fields.{IsNormalField, IsNormalTuple}
use tuplespace.Match.{Bindings, lookup, bind, match_field, match_fields, match}
use tuplespace.Match.Equality.{equal_value_iff}
use tuplespace.Match.Spec.{Fits, Matches, IsPlainBindings}
use tuplespace.Match.Sound.{match_field-Round}

formal-not-actual : {k : Text} → k ≡ field_formal → text_eq k field_actual ≡ false
unfolding text_eq
formal-not-actual e = rw e

module _ (σ : Text → Any) where
  -- The assignment gives each bound name the value that it is bound to.
  abbrev pub Agrees : Bindings → Type 0
  Agrees b = (name : Text) (v : Any) → lookup name b ≡ some v → σ name ≡ v

  module _ (b : Bindings) (f : TemplateField) (g : TupleField) (agrees : Agrees b)
      (plain : IsPlainBindings b) (normal : IsNormal f.type g.value) where
    newer_binding : σ f.name ≡ g.value → Agrees ((f.name, g.value) ∷ b)
    unfolding lookup
    newer_binding e name v known = elim (Bool-cases (text_eq f.name name)) [
      | inl s ↦ let here : σ name ≡ g.value = rw ((text_eq_iff _ _).0 s) at e in here ∙ ground arith
      | inr n ↦ agrees name v (rw n at known)
    ]

    bind_complete :
        σ f.name ≡ g.value → (c : Bindings) × (bind b (lookup f.name b) f g ≡ some c) × Agrees c
    unfolding bind
    bind_complete e = elim (Option-cases (lookup f.name b)) [
      | inl unknown ↦ ((f.name, g.value) ∷ b, rw unknown, newer_binding e)
      | inr (v, known) ↦
          let same : v ≡ g.value = sym (agrees f.name v known) ∙ e in
          let equal = (equal_value_iff f.type v g.value (plain f.name v known) normal).1 same in
          (b, rw known (rw equal), agrees)
    ]

    match_field_complete : Fits σ f g → (c : Bindings) × (match_field b f g ≡ some c) × Agrees c
    unfolding match_field
    match_field_complete (t, inl (k, e)) =
        let same : text_eq f.type g.type ≡ true = rw t (text_eq_refl g.type) in
        (b, ground (arith, (text_eq_iff f.kind field_actual).1 k), agrees)
    match_field_complete (t, inr (k, e)) =
        let same : text_eq f.type g.type ≡ true = rw t (text_eq_refl g.type) in
        let (c, found, agrees') = bind_complete e in
        (c, ground (arith, formal-not-actual k, (text_eq_iff f.kind field_formal).1 k), agrees')

  match_fields_complete :
      (b : Bindings) (fs : List TemplateField) (gs : List TupleField)
      → Agrees b
      → IsPlainBindings b
      → All IsNormalField gs
      → Zip (Fits σ) fs gs
      → (c : Bindings) × (match_fields b fs gs ≡ some c) × Agrees c
  unfolding match_fields
  match_fields_complete b [] [] agrees plain normal z = (b, refl, agrees)
  match_fields_complete b [] (g ∷ gs) agrees plain normal z = absurd z
  match_fields_complete b (f ∷ fs) [] agrees plain normal z = absurd z
  match_fields_complete b (f ∷ fs) (g ∷ gs) agrees plain (n, normal) (here, later) =
      let n' : IsNormal f.type g.value = rw here.0 n in
      let (m, found, agrees') = match_field_complete b f g agrees plain n' here in
      let round = match_field-Round b f g plain n m found in
      let (c, rest, final) = match_fields_complete m fs gs agrees' round.plain normal later in
      (c, rw found rest, final)

  length-Zip :
      (fs : List TemplateField) (gs : List TupleField) → Zip (Fits σ) fs gs → length fs ≡ length gs
  length-Zip [] [] z = refl
  length-Zip [] (g ∷ gs) z = absurd z
  length-Zip (f ∷ fs) [] z = absurd z
  length-Zip (f ∷ fs) (g ∷ gs) z = ap suc (length-Zip fs gs z.1)

  -- Whenever a normalised tuple fits the template under some assignment, `Match` reports a match,
  -- and binds each name to the value that the assignment gives it.
  pub match_complete :
      (t : Template) (u : Tuple)
      → IsNormalTuple u
      → Matches σ t u
      → (b : Bindings) × (match t u ≡ some b) × Agrees b
  unfolding match lookup
  match_complete t u normal fits =
      let (b, found, agrees) =
        match_fields_complete [] t.fields u.fields (λ name v e. absurd (ground arith))
          (λ name v e. absurd (ground arith)) normal fits in
      let same = length-Zip t.fields u.fields fits in (b, ground arith, agrees)
