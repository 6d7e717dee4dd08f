-- ===== src/Match/Sound.antt =====
-- A match that `Match` reports is one, under the bindings that it returns, and these bind exactly
-- the names of the formal fields (internal/match/match.go).
use tuplespace.Base.{
  ◌≡◌, ◌⊎◌, inl, inr, ap, none, some, List, [], ◌∷◌, true, false, ◌||◌, ◌&&◌, Text, text_eq,
  text_eq_iff, text_eq_refl, Zip, All, length, arith, Bool-cases, Option-cases,
}
use tuplespace.Types.{Any, TupleField, Tuple, TemplateField, Template, field_actual, field_formal}
use tuplespace.Types.Normal.{IsNormal}
use tuplespace.Types.Fields.{IsNormalField, IsNormalTuple}
use tuplespace.Match.{Bindings, lookup, equal_value, bind, match_field, match_fields, match}
use tuplespace.Match.Equality.{IsNormal-IsPlain, equal_value_iff}
use tuplespace.Match.Spec.{Fits, Matches, value_or_nil, assigned, names, is_some, IsPlainBindings}

-- No binding is lost or changed.
abbrev Extends : Bindings → Bindings → Type 0
Extends b c = (name : Text) (v : Any) → lookup name b ≡ some v → lookup name c ≡ some v

-- What one round gives: the field fits under any bindings that extend those after it.
pub record Round (b c : Bindings) (f : TemplateField) (g : TupleField) : Type 0 where
  types : f.type ≡ g.type
  extends : Extends b c
  pub plain : IsPlainBindings c
  bound :
      (name : Text)
      → is_some (lookup name c)
        ≡ (is_some (lookup name b) || (text_eq f.kind field_formal && text_eq f.name name))
  fits :
      ((f.kind ≡ field_actual) × (equal_value f.type f.value g.value ≡ true))
      ⊎ ((f.kind ≡ field_formal) × (lookup f.name c ≡ some g.value))

module _ (b : Bindings) (f : TemplateField) (g : TupleField) where
  -- The ways through a round.
  data Way (c : Bindings) : Type 0 where
    by_value : f.kind ≡ field_actual → equal_value f.type f.value g.value ≡ true → c ≡ b → Way c
    by_old_binding :
        (v : Any)
        → f.kind ≡ field_formal
        → lookup f.name b ≡ some v
        → equal_value f.type v g.value ≡ true
        → c ≡ b
        → Way c
    by_new_binding :
        f.kind ≡ field_formal → lookup f.name b ≡ none → c ≡ (f.name, g.value) ∷ b → Way c

  bound_ways :
      (c : Bindings) (v : Any)
      → lookup f.name b ≡ some v
      → f.kind ≡ field_formal
      → bind b (some v) f g ≡ some c
      → Way c
  unfolding bind
  bound_ways c v known k h = elim (Bool-cases (equal_value f.type v g.value)) [
    | inl e ↦ by_old_binding v k known e (ground arith)
    | inr e ↦ absurd (ground arith)
  ]

  formal_ways :
      (c : Bindings) → f.kind ≡ field_formal → bind b (lookup f.name b) f g ≡ some c → Way c
  unfolding bind
  formal_ways c k h = elim (Option-cases (lookup f.name b)) [
    | inl e ↦ by_new_binding k e (ground arith)
    | inr (v, e) ↦ bound_ways c v e k (rw e at h)
  ]

  kind_ways : (c : Bindings) → text_eq f.type g.type ≡ true → match_field b f g ≡ some c → Way c
  unfolding match_field
  kind_ways c t h = elim (Bool-cases (text_eq f.kind field_actual)) [
    | inl a ↦ elim (Bool-cases (equal_value f.type f.value g.value)) [
      | inl e ↦ by_value ((text_eq_iff _ _).0 a) e (ground arith)
      | inr e ↦ absurd (ground arith)
    ]
    | inr n ↦ elim (Bool-cases (text_eq f.kind field_formal)) [
      | inl k ↦ formal_ways c ((text_eq_iff _ _).0 k) (ground arith)
      | inr m ↦ absurd (ground arith)
    ]
  ]

  way : (c : Bindings) → match_field b f g ≡ some c → (f.type ≡ g.type) × Way c
  unfolding match_field
  way c h = elim (Bool-cases (text_eq f.type g.type)) [
    | inl t ↦ ((text_eq_iff _ _).0 t, kind_ways c t h)
    | inr n ↦ absurd (ground arith)
  ]

kind_bound :
    (f : TemplateField) (name : Text)
    → f.kind ≡ field_actual
    → (text_eq f.kind field_formal && text_eq f.name name) ≡ false
unfolding text_eq
kind_bound f name k = rw k

formal_bound :
    (f : TemplateField) (name : Text)
    → f.kind ≡ field_formal
    → (text_eq f.kind field_formal && text_eq f.name name) ≡ text_eq f.name name
unfolding text_eq
formal_bound f name k = rw k

module _ (b : Bindings) (f : TemplateField) (g : TupleField) (plain : IsPlainBindings b)
    (normal : IsNormalField g) where
  bound_by_value :
      (name : Text)
      → f.kind ≡ field_actual
      → is_some (lookup name b)
        ≡ (is_some (lookup name b) || (text_eq f.kind field_formal && text_eq f.name name))
  bound_by_value name k = rw (kind_bound f name k) (ground arith)

  bound_by_old :
      (name : Text) (v : Any)
      → f.kind ≡ field_formal
      → lookup f.name b ≡ some v
      → is_some (lookup name b)
        ≡ (is_some (lookup name b) || (text_eq f.kind field_formal && text_eq f.name name))
  bound_by_old name v k known =
      rw (formal_bound f name k) (elim (Bool-cases (text_eq f.name name)) [
        | inl e ↦ let same : lookup name b ≡ some v = rw ((text_eq_iff _ _).0 e) at known in rw same
        | inr n ↦ ground arith
      ])

  bound_by_new :
      (name : Text)
      → f.kind ≡ field_formal
      → is_some (lookup name ((f.name, g.value) ∷ b))
        ≡ (is_some (lookup name b) || (text_eq f.kind field_formal && text_eq f.name name))
  unfolding lookup
  bound_by_new name k = rw (formal_bound f name k) (ground arith)

  newer_binding : lookup f.name b ≡ none → Extends b ((f.name, g.value) ∷ b)
  unfolding lookup
  newer_binding unknown name v e = elim (Bool-cases (text_eq f.name name)) [
    | inl s ↦
        let missing : lookup name b ≡ none = rw ((text_eq_iff _ _).0 s) at unknown in
        absurd (ground arith)
    | inr n ↦ rw n e
  ]

  plain_new : IsPlainBindings ((f.name, g.value) ∷ b)
  unfolding lookup
  plain_new name v e = elim (Bool-cases (text_eq f.name name)) [
    | inl s ↦
        let same : g.value ≡ v = ground arith in rw same at (IsNormal-IsPlain g.type g.value normal)
    | inr n ↦ plain name v (rw n at e)
  ]

  found_new : lookup f.name ((f.name, g.value) ∷ b) ≡ some g.value
  unfolding lookup
  found_new = rw (text_eq_refl f.name)

  case_split : (c : Bindings) → f.type ≡ g.type → Way b f g c → Round b c f g
  case_split c t (by_value k e same) = rw same (record {
    types = t;
    extends = λ name v h. h;
    plain = plain;
    bound = λ name. bound_by_value name k;
    fits = inl (k, e);
  })
  case_split c t (by_old_binding v k known e same) = rw same (record {
    types = t;
    extends = λ name w h. h;
    plain = plain;
    bound = λ name. bound_by_old name v k known;
    fits =
        let normal' : IsNormal f.type g.value = rw t normal in
        inr (k, rw (← (equal_value_iff f.type v g.value (plain f.name v known) normal').0 e) known);
  })
  case_split c t (by_new_binding k unknown same) = rw same (record {
    types = t;
    extends = newer_binding unknown;
    plain = plain_new;
    bound = λ name. bound_by_new name k;
    fits = inr (k, found_new);
  })

  pub match_field-Round : (c : Bindings) → match_field b f g ≡ some c → Round b c f g
  match_field-Round c h = let (t, w) = way b f g c h in case_split c t w

-- The whole loop from the bindings `b` on.
record Run (b c : Bindings) (fs : List TemplateField) (gs : List TupleField) : Type 0 where
  extends : Extends b c
  bound : (name : Text) → is_some (lookup name c) ≡ (is_some (lookup name b) || names name fs)
  fits : Zip (Fits (assigned c)) fs gs

-- What a round found holds under the final bindings.
Round-Fits :
    (b c d : Bindings) (f : TemplateField) (g : TupleField)
    → Round b c f g
    → Extends c d
    → Fits (assigned d) f g
Round-Fits b c d f g r later = (r.types, fits r.fits)
  where
    fits :
        ((f.kind ≡ field_actual) × (equal_value f.type f.value g.value ≡ true))
          ⊎ ((f.kind ≡ field_formal) × (lookup f.name c ≡ some g.value))
        → ((f.kind ≡ field_actual) × (equal_value f.type f.value g.value ≡ true))
          ⊎ ((f.kind ≡ field_formal) × (assigned d f.name ≡ g.value))
    fits (inl a) = inl a
    fits (inr (k, e)) = inr (k, ap value_or_nil (later f.name g.value e))

match_fields-Run :
    (b c : Bindings) (fs : List TemplateField) (gs : List TupleField)
    → length fs ≡ length gs
    → IsPlainBindings b
    → All IsNormalField gs
    → match_fields b fs gs ≡ some c
    → Run b c fs gs
unfolding match_fields
match_fields-Run b c [] [] same plain normal h =
    let e : b ≡ c = ground arith in
    record { extends = λ n v k. rw (← e) k; bound = λ n. rw e (ground arith); fits = tt }
match_fields-Run b c [] (g ∷ gs) same plain normal h = absurd (omega arith)
match_fields-Run b c (f ∷ fs) [] same plain normal h = absurd (omega arith)
match_fields-Run b c (f ∷ fs) (g ∷ gs) same plain (n, normal) h =
    elim (Option-cases (match_field b f g)) [
      | inl e ↦ absurd (ground arith)
      | inr (m, e) ↦
          let round = match_field-Round b f g plain n m e in
          let run = match_fields-Run m c fs gs (omega arith) round.plain normal (ground arith) in
          record {
            extends = λ name v k. run.extends name v (round.extends name v k);
            bound = λ name. ground (arith, run.bound name, round.bound name);
            fits = (Round-Fits b m c f g round run.extends, run.fits);
          }
    ]

-- If `Match` reports a match with a normalised tuple, then the tuple fits the template when each
-- formal name stands for what it is bound to, and the names bound are those of the formal fields.
pub match_sound :
    (t : Template) (u : Tuple) (b : Bindings)
    → IsNormalTuple u
    → match t u ≡ some b
    → Matches (assigned b) t u × ((name : Text) → is_some (lookup name b) ≡ names name t.fields)
unfolding match lookup
match_sound t u b normal h =
    let run =
      match_fields-Run [] b t.fields u.fields (ground arith) (λ name v e. absurd (ground arith))
        normal (ground arith) in
    (run.fits, run.bound)
