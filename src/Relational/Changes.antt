-- ===== src/Relational/Changes.antt =====
-- What InsertTuple and DeleteTuple do to the tuples that the tables hold
-- (internal/store/tuple_store.go).
use tuplespace.Base.{
  ℕ, ◌+◌, ◌≡◌, inl, inr, refl, sym, ap, ◌∙◌, true, false, not, some, List, [], ◌∷◌, ◌++◌,
  append_assoc, append-nil, Text, length, keep, All, Zip, ℤ, int_eq, int_eq_iff, ok, >>=-eq-ok,
  or_fail, or_fail-eq-ok, ok-injective, arith, Bool-cases,
}
use tuplespace.Types.{TupleField, Tuple}
use tuplespace.Types.Fields.{IsNormalField}
use tuplespace.Store.{
  StoredTuple, columns, insert_fields, insert_tuple, delete_tuple, panicked, insert_tuple_failed,
  insert_field_failed, delete_failed,
}
use tuplespace.Store.Codec.{Payload, marshal}
use tuplespace.Store.Database.{Postgres, Columns}
use tuplespace.Store.RoundTrip.{IsGoField}
use tuplespace.Space.{IsNew}
use tuplespace.Relational.{TupleRow, FieldRow, Tables, delete_row}
use tuplespace.Relational.Laws.{Relational}
use tuplespace.Relational.Lists.{keep-append, keep_none, Zip-append}
use tuplespace.Relational.Represents.{
  columns_of, columns_lem, field_row, field_rows, rows_of, Stored, Represents,
}

-- The other tuples.
abbrev pub without_tuple : ℤ → List StoredTuple → List StoredTuple
without_tuple id = keep (λ e. not (int_eq e.id id))

int_eq_self : (z : ℤ) → int_eq z z ≡ true
int_eq_self z = (int_eq_iff z z).1 refl

rows_of_self :
    (id : ℤ) (i : ℕ) (fs : List TupleField) → rows_of id (field_rows id i fs) ≡ field_rows id i fs
rows_of_self id i [] = refl
rows_of_self id i (f ∷ fs) =
    rw (int_eq_self id) (ap (◌∷◌ (field_row id i f)) (rows_of_self id (i + 1) fs))

rows_of_other :
    (id other : ℤ) (i : ℕ) (fs : List TupleField)
    → int_eq other id ≡ false
    → rows_of id (field_rows other i fs) ≡ []
rows_of_other id other i [] h = refl
rows_of_other id other i (f ∷ fs) h = rw h (rows_of_other id other (i + 1) fs h)

int_eq_comm_false : (a b : ℤ) → int_eq a b ≡ false → int_eq b a ≡ false
int_eq_comm_false a b h = elim (Bool-cases (int_eq b a)) [
  | inl e ↦
      let back : int_eq a b ≡ true = (int_eq_iff a b).1 (sym ((int_eq_iff b a).0 e)) in
      absurd (ground arith)
  | inr e ↦ e
]

Stored-new_fields :
    (fields : List FieldRow) (id : ℤ) (fs : List TupleField) (es : List StoredTuple)
    (rs : List TupleRow)
    → IsNew id es
    → Zip (Stored fields) es rs
    → Zip (Stored (fields ++ field_rows id 0 fs)) es rs
Stored-new_fields fields id fs [] [] n h = tt
Stored-new_fields fields id fs [] (r ∷ rs) n h = absurd h
Stored-new_fields fields id fs (e ∷ es) [] n h = absurd h
Stored-new_fields fields id fs (e ∷ es) (r ∷ rs) (n, ns) ((i, s, a, p, go, parts), hs) =
    let others = rows_of_other e.id id 0 fs (int_eq_comm_false e.id id n) in
    (
      (
        i,
        s,
        a,
        p,
        go,
        keep-append (λ f. int_eq f.tuple_id e.id) fields (field_rows id 0 fs)
            ∙ (ap (λ l. rows_of e.id fields ++ l) others
                ∙ (append-nil (rows_of e.id fields) ∙ parts)),
      ),
      Stored-new_fields fields id fs es rs ns hs,
    )

-- The numbers of the rows are those of the tuples.
IsNew-rows :
    (fields : List FieldRow) (id : ℤ) (es : List StoredTuple) (rs : List TupleRow)
    → All (λ r. int_eq r.id id ≡ false) rs
    → Zip (Stored fields) es rs
    → IsNew id es
IsNew-rows fields id [] [] n h = tt
IsNew-rows fields id [] (r ∷ rs) n h = absurd h
IsNew-rows fields id (e ∷ es) [] n h = absurd h
IsNew-rows fields id (e ∷ es) (r ∷ rs) (n, ns) (h, hs) =
    (rw (← h.0) n, IsNew-rows fields id es rs ns hs)

rows_of_kept :
    (id other : ℤ) (fields : List FieldRow)
    → int_eq other id ≡ false
    → rows_of other (keep (λ f. not (int_eq f.tuple_id id)) fields) ≡ rows_of other fields
rows_of_kept id other [] n = refl
rows_of_kept id other (f ∷ fields) n = elim (Bool-cases (int_eq f.tuple_id id)) [
  | inl e ↦
      let different : int_eq f.tuple_id other ≡ false =
        rw ((int_eq_iff f.tuple_id id).0 e) (int_eq_comm_false other id n) in
      rw e (rw different (rows_of_kept id other fields n))
  | inr e ↦ elim (Bool-cases (int_eq f.tuple_id other)) [
    | inl s ↦ rw e (rw s (ap (◌∷◌ f) (rows_of_kept id other fields n)))
    | inr s ↦ rw e (rw s (rows_of_kept id other fields n))
  ]
]

-- A delete of another number keeps what a row holds.
Stored-delete :
    (fields : List FieldRow) (id : ℤ) (e : StoredTuple) (r : TupleRow)
    → int_eq e.id id ≡ false
    → Stored fields e r
    → Stored (keep (λ f. not (int_eq f.tuple_id id)) fields) e r
Stored-delete fields id e r n (i, s, a, p, go, parts) =
    (i, s, a, p, go, rows_of_kept id e.id fields n ∙ parts)

abbrev with_fields : Tables → List FieldRow → Tables
with_fields t l = record t { fields = l }

abbrev add_fields : Tables → List FieldRow → Tables
add_fields t l = with_fields t (t.fields ++ l)

abbrev row_with : ℤ → ℕ → Text → Columns → FieldRow
row_with id i type columns = record { tuple_id = id; pos = i; type = type; columns = columns }

-- The tables after a tuple was inserted.
inserted_Represents :
    (t : Tables) (tuples : List StoredTuple) (id : ℤ) (space : Text) (u : Tuple) (payload : Payload)
    → marshal u ≡ some payload
    → All IsGoField u.fields
    → IsNew id tuples
    → All (λ f. int_eq f.tuple_id id ≡ false) t.fields
    → Represents tuples t
    → Zip
        (Stored (t.fields ++ field_rows id 0 u.fields))
        (tuples ++ record { id = id; space = space; tuple = u } ∷ [])
        (t.tuples
          ++ record { id = id; space = space; arity = length u.fields; payload = payload } ∷ [])
inserted_Represents t tuples id space u payload written go new none_yet h =
    let rows = field_rows id 0 u.fields in
    let own =
      keep-append (λ f. int_eq f.tuple_id id) t.fields rows
      ∙ (ap (λ l. l ++ rows_of id rows) (keep_none (λ f. int_eq f.tuple_id id) t.fields none_yet)
          ∙ rows_of_self id 0 u.fields) in
    Zip-append (Stored (t.fields ++ rows)) tuples t.tuples _ _
      (Stored-new_fields t.fields id u.fields tuples t.tuples new h)
      ((refl, refl, refl, written, go, own), tt)

-- The tables after a tuple was deleted.
deleted_Represents :
    (fields : List FieldRow) (id : ℤ) (es : List StoredTuple) (rs : List TupleRow)
    → Zip (Stored fields) es rs
    → Zip
        (Stored (keep (λ f. not (int_eq f.tuple_id id)) fields))
        (without_tuple id es)
        (keep (λ r. not (int_eq r.id id)) rs)
deleted_Represents fields id [] [] h = tt
deleted_Represents fields id [] (r ∷ rs) h = absurd h
deleted_Represents fields id (e ∷ es) [] h = absurd h
deleted_Represents fields id (e ∷ es) (r ∷ rs) (h, hs) =
    let rest = deleted_Represents fields id es rs hs in
    let same : int_eq r.id id ≡ int_eq e.id id = ap (λ z. int_eq z id) (h.0) in
    elim (Bool-cases (int_eq e.id id)) [
      | inl gone ↦ rw (same ∙ gone) (rw gone rest)
      | inr kept ↦ rw (same ∙ kept) (rw kept (Stored-delete fields id e r kept h, rest))
    ]

module _ (pg : Postgres) (laws : Relational pg) where
  open pg use {Db}

  insert_fields_view :
      (id : ℤ) (i : ℕ) (fs : List TupleField) (db db' : Db)
      → All IsNormalField fs
      → insert_fields pg id i fs db ≡ ok db'
      → laws.view db' ≡ add_fields (laws.view db) (field_rows id i fs)
  unfolding insert_fields
  insert_fields_view id i [] db db' n h =
      ap laws.view (sym (ok-injective h))
      ∙ ap (with_fields (laws.view db)) (sym (append-nil (laws.view db).fields))
  insert_fields_view id i (f ∷ fs) db db' (n, ns) h =
      let (c, e, h₁) = >>=-eq-ok (columns f) _ h in
      let (d, e₂, h₂) = >>=-eq-ok (or_fail (insert_field_failed i) _) _ h₁ in
      let row = laws.view-insert_field db d id i f.type c (or_fail-eq-ok _ _ e₂) in
      let same : c ≡ columns_of f.value = ok-injective (sym e ∙ columns_lem f n) in
      let old = (laws.view db).fields in
      let rest = field_rows id (i + 1) fs in
      insert_fields_view id (i + 1) fs d db' ns h₂
      ∙ (ap (λ v. add_fields v rest) row
          ∙ (ap (λ k. add_fields (add_fields (laws.view db) (row_with id i f.type k ∷ [])) rest)
                same
              ∙ ap (with_fields (laws.view db)) (append_assoc old (field_row id i f ∷ []) rest)))

  normal_of_go : (fs : List TupleField) → All IsGoField fs → All IsNormalField fs
  normal_of_go [] h = tt
  normal_of_go (f ∷ fs) ((n, _), h) = (n, normal_of_go fs h)

  -- A tuple that is inserted is held, last, under a number that no other tuple has.
  pub insert_tuple-Represents :
      (space : Text) (u : Tuple) (db db' : Db) (id : ℤ) (tuples : List StoredTuple)
      → All IsGoField u.fields
      → Represents tuples (laws.view db)
      → insert_tuple pg space u db ≡ ok (id, db')
      → IsNew id tuples
        × Represents (tuples ++ record { id = id; space = space; tuple = u } ∷ []) (laws.view db')
  unfolding insert_tuple
  insert_tuple-Represents space u db db' id tuples go h k =
      let (payload, e₁, h₁) = >>=-eq-ok (or_fail panicked (marshal u)) _ k in
      let ((n, d), e₂, h₂) = >>=-eq-ok (or_fail insert_tuple_failed _) _ h₁ in
      let (d', e₃, h₃) = >>=-eq-ok (insert_fields pg n 0 u.fields d) _ h₂ in
      let written = or_fail-eq-ok panicked (marshal u) e₁ in
      let (inserted, new_rows, new_fields) =
        laws.view-insert db d space (length u.fields) payload n
          (or_fail-eq-ok insert_tuple_failed _ e₂) in
      let filled = insert_fields_view n 0 u.fields d d' (normal_of_go u.fields go) e₃ in
      let same = ok-injective h₃ in
      let new = IsNew-rows (laws.view db).fields n tuples (laws.view db).tuples new_rows h in
      let held : Represents (tuples ++ record { id = n; space = space; tuple = u } ∷ [])
          (laws.view d') =
        rw filled (
          rw inserted (
            inserted_Represents (laws.view db) tuples n space u payload written go new new_fields
              h)) in
      rw (← ap (λ p. p.0) same) (rw (← ap (λ p. p.1) same) (new, held))

  -- A tuple that is deleted is held no more, and the others are.
  pub delete_tuple-Represents :
      (id : ℤ) (db db' : Db) (tuples : List StoredTuple)
      → Represents tuples (laws.view db)
      → delete_tuple pg id db ≡ ok db'
      → Represents (without_tuple id tuples) (laws.view db')
  unfolding delete_tuple delete_row
  delete_tuple-Represents id db db' tuples h k =
      let ((n, d), e, h₁) = >>=-eq-ok (or_fail (delete_failed id) _) _ k in
      let deleted = laws.view-delete db d id n (or_fail-eq-ok _ _ e) in
      rw (← ok-injective h₁)
        (rw deleted (deleted_Represents (laws.view db).fields id tuples (laws.view db).tuples h))
