-- ===== src/Relational/Candidates.antt =====
-- Which tuples the candidate query gives, where the tables hold tuples.
use tuplespace.Base.{
  ℕ, suc, ◌+◌, ◌*◌, ◌<◌, ◌≡◌, inl, inr, refl, sym, ap, ◌∙◌, Bool, true, false, ◌&&◌, List, [], ◌∷◌,
  ◌++◌, append_assoc, length-append, Text, text_eq, ◌==◌, length, keep, Zip, ℤ, pos, negsuc, int_eq,
  arith, Bool-cases, if◌then◌else◌,
}
use tuplespace.Types.{TupleField, TemplateField, Template, field_actual}
use tuplespace.Store.{StoredTuple}
use tuplespace.Store.Query.{effective_limit}
use tuplespace.Store.Query.Printed.{joins_of, candidate_select}
use tuplespace.Relational.{TupleRow, FieldRow, Tables}
use tuplespace.Relational.Select.{
  Join, Select, joins_row, ways, copies, selects, selected, evaluate, take_rows, column_holds,
}
use tuplespace.Relational.Lists.{keep-keep, Zip-take}
use tuplespace.Relational.Represents.{columns_of, field_rows, rows_of, Stored, Represents}

-- An actual field asks for the type and the value in the column of the value.
abbrev pub agrees_field : TemplateField → TupleField → Bool
agrees_field t f =
    if text_eq t.kind field_actual
    then text_eq f.type t.type && column_holds (columns_of f.value) t.value
    else true

abbrev pub agrees : List TemplateField → List TupleField → Bool
agrees [] fs = true
agrees (t ∷ ts) [] = true
agrees (t ∷ ts) (f ∷ fs) = agrees_field t f && agrees ts fs

-- The tuples that the query preselects: those of the space with as many fields, which agree in the
-- actual fields.
abbrev pub preselects : Text → Template → StoredTuple → Bool
preselects space t e =
    text_eq e.space space
    && (length e.tuple.fields == length t.fields)
    && agrees t.fields e.tuple.fields

module _ (j : Join) (id : ℤ) where
  abbrev holds : TupleField → Bool
  holds f = text_eq f.type j.type && column_holds (columns_of f.value) j.value

  no_later :
      (i : ℕ) (fs : List TupleField) → j.pos < i → keep (joins_row j) (field_rows id i fs) ≡ []
  unfolding joins_row
  no_later i [] h = refl
  no_later i (f ∷ fs) h =
      let other : (i == j.pos) ≡ false = ground arith in
      rw other (no_later (i + 1) fs (omega arith))

  one_here :
      (f : TupleField) (fs : List TupleField) (i : ℕ)
      → j.pos ≡ i
      → length (keep (joins_row j) (field_rows id i (f ∷ fs))) ≡ (if holds f then 1 else 0)
  unfolding joins_row
  one_here f fs i h =
      let here : (i == j.pos) ≡ true = ground arith in
      let later : keep (joins_row j) (field_rows id (i + 1) fs) ≡ [] =
        no_later (i + 1) fs (omega arith) in
      elim (Bool-cases (holds f)) [
        | inl e ↦ rw here (rw e (ap (λ l. suc (length l)) later))
        | inr e ↦ rw here (rw e (ap length later))
      ]

  one_behind :
      (front : List TupleField) (f : TupleField) (fs : List TupleField) (i : ℕ)
      → j.pos ≡ i + length front
      → length (keep (joins_row j) (field_rows id i (front ++ f ∷ fs))) ≡ (if holds f then 1 else 0)
  unfolding joins_row
  one_behind [] f fs i h = one_here f fs i (omega arith)
  one_behind (g ∷ front) f fs i h =
      let other : (i == j.pos) ≡ false = ground arith in
      rw other (one_behind front f fs (i + 1) (omega arith))

count_both : (a b : Bool) → (if a then 1 else 0) * (if b then 1 else 0) ≡ (if a && b then 1 else 0)
count_both true true = refl
count_both true false = refl
count_both false b = omega arith

module _ (fields : List FieldRow) (id : ℤ) where
  -- One way to choose the rows of the joins if the fields agree, and none if they do not.
  ways_agree :
      (ts : List TemplateField) (front fs : List TupleField) (i : ℕ)
      → i ≡ length front
      → length fs ≡ length ts
      → rows_of id fields ≡ field_rows id 0 (front ++ fs)
      → ways id fields (joins_of i ts) ≡ (if agrees ts fs then 1 else 0)
  unfolding ways joins_of
  ways_agree [] front fs i at_i same h = refl
  ways_agree (t ∷ ts) front [] i at_i same h = absurd (omega arith)
  ways_agree (t ∷ ts) front (f ∷ fs) i at_i same h =
      let moved : front ++ f ∷ fs ≡ (front ++ f ∷ []) ++ fs =
        sym (append_assoc front (f ∷ []) fs) in
      let rest =
        ways_agree ts (front ++ f ∷ []) fs (i + 1) (rw (length-append front) (omega arith))
          (omega arith) (h ∙ ap (field_rows id 0) moved) in
      elim (Bool-cases (text_eq t.kind field_actual)) [
        | inr e ↦ rw e rest
        | inl e ↦
            let j : Join = record { pos = i; type = t.type; value = t.value } in
            let found =
              sym (ap length (keep-keep (λ r. int_eq r.tuple_id id) (joins_row j) fields))
              ∙ (ap (λ l. length (keep (joins_row j) l)) h
                  ∙ one_behind j id front f fs 0 (omega arith)) in
            rw e (rw found (rw rest (count_both (holds j id f) (agrees ts fs))))
      ]

module _ (space : Text) (t : Template) (limit : ℤ) (locked : Bool) (fields : List FieldRow) where
  abbrev asked : Select
  asked = candidate_select space t limit locked

  copies_agree :
      (n : ℕ) (b : Bool) (e : StoredTuple) (r : TupleRow) (es : List StoredTuple)
      (rs : List TupleRow)
      → n ≡ (if b then 1 else 0)
      → Stored fields e r
      → Zip (Stored fields) es rs
      → Zip (Stored fields) (if b then e ∷ es else es) (copies n r rs)
  unfolding copies
  copies_agree n true e r es rs h stored rest = rw h (stored, rest)
  copies_agree n false e r es rs h stored rest = rw h rest

  selects-Stored :
      (e : StoredTuple) (r : TupleRow)
      → Stored fields e r
      → selects asked r ≡ (text_eq e.space space && (length e.tuple.fields == length t.fields))
  unfolding selects candidate_select
  selects-Stored e r h = rw (h.1) (rw (h.2) refl)

  ways-Stored :
      (e : StoredTuple) (r : TupleRow)
      → Stored fields e r
      → (length e.tuple.fields == length t.fields) ≡ true
      → ways r.id fields asked.joins ≡ (if agrees t.fields e.tuple.fields then 1 else 0)
  unfolding candidate_select
  ways-Stored e r (i, s, a, p, go, parts) equal =
      rw i (ways_agree fields e.id t.fields [] e.tuple.fields 0 refl (ground arith) parts)

  selected-Stored :
      (es : List StoredTuple) (rs : List TupleRow)
      → Zip (Stored fields) es rs
      → Zip (Stored fields) (keep (preselects space t) es) (selected asked fields rs)
  unfolding selected
  selected-Stored [] [] h = tt
  selected-Stored [] (r ∷ rs) h = absurd h
  selected-Stored (e ∷ es) [] h = absurd h
  selected-Stored (e ∷ es) (r ∷ rs) (h, hs) =
      let rest = selected-Stored es rs hs in
      let chosen = selects-Stored e r h in
      elim (Bool-cases (text_eq e.space space)) [
        | inr other ↦ rw chosen (rw other rest)
        | inl same ↦ elim (Bool-cases (length e.tuple.fields == length t.fields)) [
          | inr other ↦ rw chosen (rw same (rw other rest))
          | inl equal ↦ rw chosen (
              rw same (
                rw equal (
                  copies_agree _ (agrees t.fields e.tuple.fields) e r (keep (preselects space t) es)
                    _ (ways-Stored e r h equal) h rest)))
        ]
      ]

  take_rows-Stored :
      (n : ℤ) (es : List StoredTuple) (rs : List TupleRow)
      → Zip (Stored fields) es rs
      → Zip (Stored fields) (take_rows n es) (take_rows n rs)
  take_rows-Stored (pos n) es rs h = Zip-take (Stored fields) n es rs h
  take_rows-Stored (negsuc n) es rs h = tt

-- The rows of the query hold the preselected tuples, in order, up to the limit.
pub evaluate-Represents :
    (space : Text) (t : Template) (limit : ℤ) (locked : Bool) (tuples : List StoredTuple)
    (db : Tables)
    → Represents tuples db
    → Zip
        (Stored db.fields)
        (take_rows (effective_limit limit) (keep (preselects space t) tuples))
        (evaluate (candidate_select space t limit locked) db)
unfolding evaluate candidate_select
evaluate-Represents space t limit locked tuples db h =
    take_rows-Stored space t limit locked db.fields (effective_limit limit)
      (keep (preselects space t) tuples) _
      (selected-Stored space t limit locked db.fields tuples db.tuples h)
