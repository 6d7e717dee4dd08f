-- ===== src/Service/Refinement/Steps.antt =====
-- One call of the service on the tables, as an operation of the tuple space (internal/service/service.go:
-- `Out`, `readOnceInTransaction` and `consumeOnceInTransaction`).
use tuplespace.Base.{
  ℕ, or_fail, or_fail-eq-ok, ◌≡◌, refl, sym, ap, ◌∙◌, Bool, true, false, Option, none, some, List,
  [], ◌∷◌, Text, keep, All, Zip, ℤ, pos, negsuc, ok, wrap, >>=-eq-ok, >>-eq-ok, wrap-eq-ok,
  ok-injective, length, ◌≤◌, ◌>>=◌, arith,
}
use tuplespace.Types.{TupleField, Tuple, Template}
use tuplespace.Types.Fields.{IsNormalField, IsNormalTuple}
use tuplespace.Match.{Bindings}
use tuplespace.Validation.{validate_space, validate_tuple}
use tuplespace.Store.{
  StoredTuple, query_failed, bad_query, find_candidates, lock_candidates_for_consume,
  query_candidates, decode_rows, insert_tuple, delete_tuple,
}
use tuplespace.Store.Database.{Postgres}
use tuplespace.Store.RoundTrip.{IsGoField}
use tuplespace.Store.Query.{build_candidate_query, effective_limit}
use tuplespace.Store.Query.Printed.{HasValues, candidate_select, build_candidate_query-print_select}
use tuplespace.Relational.{TupleRow, FieldRow}
use tuplespace.Relational.Select.{take_rows, print_select, select_args}
use tuplespace.Relational.Laws.{Relational}
use tuplespace.Relational.Represents.{Stored, Represents, decode_rows_Represents}
use tuplespace.Relational.Candidates.{preselects, evaluate-Represents}
use tuplespace.Relational.Changes.{insert_tuple-Represents, delete_tuple-Represents}
use tuplespace.Notify.Channel.{channel_name}
use tuplespace.Service.{
  begin_failed, notify_failed, commit_failed, invalid, store, Found, found_of, first_match, consume,
  consume_once, read_once, out,
}
use tuplespace.Service.Refinement.{WithinLimit, limit_of}
use tuplespace.Service.Refinement.Preselected.{first_match-oldest, take_all}
use tuplespace.Service.Refinement.Ranges.{InRangeField, validate_tuple-IsGoField}
use tuplespace.Space.{Contents, IsNew, answer, oldest, put, take_away}

found_of-answer : (o : Option (StoredTuple × Bindings)) → found_of o ≡ answer o
found_of-answer none = refl
found_of-answer (some (e, b)) = refl

go-IsNormalField : (fs : List TupleField) → All IsGoField fs → All IsNormalField fs
go-IsNormalField [] h = tt
go-IsNormalField (f ∷ fs) (h, hs) = (h.0, go-IsNormalField fs hs)

Stored-IsNormalTuple :
    (fields : List FieldRow) (s : Contents) (rs : List TupleRow)
    → Zip (Stored fields) s rs
    → All (λ e. IsNormalTuple e.tuple) s
Stored-IsNormalTuple fields [] rs h = tt
Stored-IsNormalTuple fields (e ∷ s) [] h = absurd h
Stored-IsNormalTuple fields (e ∷ s) (r ∷ rs) ((i, sp, a, p, go, parts), hs) =
    (go-IsNormalField e.tuple.fields go, Stored-IsNormalTuple fields s rs hs)

pub take_rows_all :
    (limit : ℤ) (xs : Contents) → length xs ≤ limit_of limit → take_rows limit xs ≡ xs
take_rows_all (pos n) xs h = take_all n xs h
take_rows_all (negsuc n) [] h = refl
take_rows_all (negsuc n) (x ∷ xs) h = absurd (omega arith)

module _ (pg : Postgres) (laws : Relational pg) where
  open pg use {Db}

  -- The rows that a candidate query gives hold the preselected tuples, oldest first.
  candidates_lem :
      (space : Text) (t : Template) (limit : ℤ) (locked : Bool) (db : Db) (s cs : Contents)
      → HasValues t.fields
      → Represents s (laws.view db)
      → (wrap bad_query (build_candidate_query space t limit locked) >>= λ q.
          query_candidates pg db q)
        ≡ ok cs
      → cs ≡ take_rows (effective_limit limit) (keep (preselects space t) s)
  unfolding query_candidates
  candidates_lem space t limit locked db s cs values holds h =
      let ((sql, args), e₁, h₁) =
        >>=-eq-ok (wrap bad_query (build_candidate_query space t limit locked)) _ h in
      let (text, given) =
        build_candidate_query-print_select space t limit locked sql args values
          (wrap-eq-ok bad_query _ e₁) in
      let (found, e₂, h₂) = >>=-eq-ok (or_fail query_failed (pg.query_rows db sql args)) _ h₁ in
      let answer : pg.query_rows db (print_select (candidate_select space t limit locked))
            (select_args (candidate_select space t limit locked))
          ≡ some found =
        rw (← text, ← given) (or_fail-eq-ok query_failed _ e₂) in
      let rows = laws.rows (candidate_select space t limit locked) db found answer in
      let decoded =
        decode_rows_Represents (laws.view db).fields _ _
          (evaluate-Represents space t limit locked s (laws.view db) holds) in
      ok-injective (sym h₂ ∙ (ap decode_rows rows ∙ decoded))

  first_match_lem :
      (space : Text) (t : Template) (limit : ℤ) (db : Db) (s cs : Contents)
      → HasValues t.fields
      → Represents s (laws.view db)
      → WithinLimit limit space t s
      → cs ≡ take_rows (effective_limit limit) (keep (preselects space t) s)
      → first_match t cs ≡ oldest space t s
  first_match_lem space t limit db s cs values holds within e =
      ap (first_match t) (e ∙ take_rows_all (effective_limit limit) _ within)
      ∙ first_match-oldest space t values s (Stored-IsNormalTuple (laws.view db).fields s _ holds)

  -- Reading without taking: where the tables hold the tuples `s`, no more of them than the limit are
  -- preselected, and the actual fields of the template have values of their types, an attempt that
  -- returns gives the oldest tuple of the space that matches, with its bindings, or none if no tuple
  -- of the space matches.
  pub read_once-oldest :
      (limit : ℤ) (space : Text) (t : Template) (db : Db) (s : Contents) (found : Option Found)
      → HasValues t.fields
      → Represents s (laws.view db)
      → WithinLimit limit space t s
      → read_once pg limit space t db ≡ ok found
      → found ≡ answer (oldest space t s)
  unfolding read_once find_candidates
  read_once-oldest limit space t db s found values holds within h =
      let (cs, e, h₁) = >>=-eq-ok (wrap store (find_candidates pg space t limit db)) _ h in
      let listed = candidates_lem space t limit false db s cs values holds (wrap-eq-ok store _ e) in
      sym (ok-injective h₁)
      ∙ (ap found_of (first_match_lem space t limit db s cs values holds within listed)
          ∙ found_of-answer (oldest space t s))

  consume-take_away :
      (limit : ℤ) (db tx : Db) (s : Contents) (o : Option (StoredTuple × Bindings))
      (found : Option Found) (db' : Db)
      → laws.view tx ≡ laws.view db
      → Represents s (laws.view db)
      → consume pg limit db tx o ≡ ok (found, db')
      → (found ≡ answer o) × Represents (take_away o s) (laws.view db')
  unfolding consume
  consume-take_away limit db tx s none found db' same holds h =
      (sym (ap (λ p. p.0) (ok-injective h)), rw (← ap (λ p. p.1) (ok-injective h)) holds)
  consume-take_away limit db tx s (some (e, b)) found db' same holds h =
      let (tx', e₁, h₁) = >>=-eq-ok (wrap store (delete_tuple pg e.id tx)) _ h in
      let (d, e₂, h₂) = >>=-eq-ok (or_fail commit_failed (pg.commit db tx')) _ h₁ in
      let left =
        delete_tuple-Represents pg laws e.id tx tx' s (rw same holds) (wrap-eq-ok store _ e₁) in
      let kept = laws.view-commit db tx' d (or_fail-eq-ok commit_failed _ e₂) in
      (sym (ap (λ p. p.0) (ok-injective h₂)), rw (← ap (λ p. p.1) (ok-injective h₂)) (rw kept left))

  -- Taking: where the tables hold the tuples `s`, no more of them than the limit are preselected, and
  -- the actual fields of the template have values of their types, an attempt that returns gives the
  -- oldest tuple of the space that matches, with its bindings, and the tables then hold the other tuples
  -- in their order; if no tuple of the space matches, it gives none and the tables hold what they held.
  pub consume_once-take_away :
      (limit : ℤ) (space : Text) (t : Template) (db db' : Db) (s : Contents) (found : Option Found)
      → HasValues t.fields
      → Represents s (laws.view db)
      → WithinLimit limit space t s
      → consume_once pg limit space t db ≡ ok (found, db')
      → (found ≡ answer (oldest space t s))
        × Represents (take_away (oldest space t s) s) (laws.view db')
  unfolding consume_once lock_candidates_for_consume
  consume_once-take_away limit space t db db' s found values holds within h =
      let (tx, e₁, h₁) = >>=-eq-ok (or_fail begin_failed (pg.begin db)) _ h in
      let same = laws.view-begin db tx (or_fail-eq-ok begin_failed _ e₁) in
      let holds' : Represents s (laws.view tx) = rw same holds in
      let (cs, e₂, h₂) =
        >>=-eq-ok (wrap store (lock_candidates_for_consume pg space t limit tx)) _ h₁ in
      let listed =
        candidates_lem space t limit true tx s cs values holds' (wrap-eq-ok store _ e₂) in
      let first = first_match_lem space t limit tx s cs values holds' within listed in
      consume-take_away limit db tx s (oldest space t s) found db' same holds (rw (← first) h₂)

  -- Writing: where the tables hold the tuples `s` and the values of the tuple are in the range of
  -- their Go types, a call that returns has accepted the tuple, and the tables then hold `s` and
  -- behind it the normalised tuple in its space, under a number that no tuple of `s` has.
  pub out-put :
      (sha1 : Text → List ℕ) (space : Text) (u : Tuple) (db db' : Db) (s : Contents)
      → All InRangeField u.fields
      → Represents s (laws.view db)
      → out pg sha1 space u db ≡ ok db'
      → (id : ℤ) × (v : Tuple) × (validate_tuple u ≡ ok v)
        × IsNew id s
        × Represents (put id space v s) (laws.view db')
  unfolding out
  out-put sha1 space u db db' s in_range holds h =
      let (checked, h₁) = >>-eq-ok (wrap invalid (validate_space space)) _ h in
      let (v, e₂, h₂) = >>=-eq-ok (wrap invalid (validate_tuple u)) _ h₁ in
      let (tx, e₃, h₃) = >>=-eq-ok (or_fail begin_failed (pg.begin db)) _ h₂ in
      let ((id, tx₁), e₄, h₄) = >>=-eq-ok (wrap store (insert_tuple pg space v tx)) _ h₃ in
      let (tx₂, e₅, h₅) =
        >>=-eq-ok (or_fail notify_failed (pg.pg_notify tx₁ (channel_name sha1 space))) _ h₄ in
      let accepted = wrap-eq-ok invalid _ e₂ in
      let same = laws.view-begin db tx (or_fail-eq-ok begin_failed _ e₃) in
      let (new, held) =
        insert_tuple-Represents pg laws space v tx tx₁ id s
          (validate_tuple-IsGoField u v in_range accepted) (rw same holds)
          (wrap-eq-ok store _ e₄) in
      let told =
        laws.view-notify tx₁ tx₂ (channel_name sha1 space) (or_fail-eq-ok notify_failed _ e₅) in
      let kept = laws.view-commit db tx₂ db' (or_fail-eq-ok commit_failed _ h₅) in
      (id, v, accepted, new, rw kept (rw told held))
