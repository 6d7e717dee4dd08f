-- ===== src/Service/Refinement/Runs.antt =====
-- Calls of the service one after the other, as a run of the tuple space (internal/service/service.go).
use tuplespace.Base.{
  ℕ, ◌+◌, ◌≤◌, ◌≡◌, refl, sym, ap, ◌∙◌, true, false, List, [], ◌∷◌, Text, All, ℤ, length,
  length-keep-le, ok, >>=-eq-ok, ok-injective, arith,
}
use tuplespace.Types.{TemplateField, Template}
use tuplespace.Validation.{validate_template}
use tuplespace.Validation.Accepted.{
  IsWellFormedField, IsWellFormed-IsNormalField, validate_template-IsWellFormed,
}
use tuplespace.Store.Database.{Postgres}
use tuplespace.Store.Query.{effective_limit}
use tuplespace.Store.Query.Printed.{HasValues}
use tuplespace.Relational.Laws.{Relational}
use tuplespace.Relational.Represents.{Represents}
use tuplespace.Relational.Candidates.{preselects}
use tuplespace.Service.{out, attempt, read_once}
use tuplespace.Service.Refinement.{WithinLimit, limit_of}
use tuplespace.Service.Refinement.Ranges.{InRangeField}
use tuplespace.Service.Refinement.Steps.{read_once-oldest, consume_once-take_away, out-put}
use tuplespace.Space.{Contents, Distinct, Event, wrote, looked, May, Runs, writes, takes}
use tuplespace.Space.Changes.{Runs-Balanced, more_writes}

well_formed-HasValues : (fs : List TemplateField) → All IsWellFormedField fs → HasValues fs
well_formed-HasValues [] h = tt
well_formed-HasValues (f ∷ fs) (h, hs) =
    ((IsWellFormed-IsNormalField f h).0, well_formed-HasValues fs hs)

-- The values that a call was given are in the range of their Go types.
abbrev pub InRangeEvent : Event → Type 0
InRangeEvent (wrote space u) = All InRangeField u.fields
InRangeEvent (looked taking space t found) = Unit

module _ (pg : Postgres) (sha1 : Text → List ℕ) (limit : ℤ) where
  open pg use {Db}

  -- A call returned: of `Out`, or of one attempt of a read with a template that was accepted.
  abbrev pub Did : Event → Db → Db → Type 0
  Did (wrote space u) db db' = out pg sha1 space u db ≡ ok db'
  Did (looked taking space t found) db db' =
      (v : Template) × (validate_template t ≡ ok v)
      × (attempt pg limit taking space v db ≡ ok (found, db'))

  module _ (laws : Relational pg) where
    step_May :
        (e : Event) (db db' : Db) (s : Contents)
        → InRangeEvent e
        → length s ≤ limit_of (effective_limit limit)
        → Represents s (laws.view db)
        → Did e db db'
        → (s' : Contents) × May e s s' × Represents s' (laws.view db')
    unfolding attempt
    step_May (wrote space u) db db' s in_range within holds h =
        let (id, v, accepted, new, held) = out-put pg laws sha1 space u db db' s in_range holds h in
        (_, (id, v, accepted, new, refl), held)
    step_May (looked true space t found) db db' s in_range within holds (v, accepted, h) =
        let values =
          well_formed-HasValues v.fields (validate_template-IsWellFormed t v accepted).0.1 in
        let few : WithinLimit limit space v s =
          omega (arith, within, length-keep-le (preselects space v) s) in
        let (found', held) =
          consume_once-take_away pg laws limit space v db db' s found values holds few h in
        (_, (v, accepted, found', refl), held)
    step_May (looked false space t found) db db' s in_range within holds (v, accepted, h) =
        let values =
          well_formed-HasValues v.fields (validate_template-IsWellFormed t v accepted).0.1 in
        let few : WithinLimit limit space v s =
          omega (arith, within, length-keep-le (preselects space v) s) in
        let (r, e, h₁) = >>=-eq-ok (read_once pg limit space v db) _ h in
        let found' = read_once-oldest pg laws limit space v db s r values holds few e in
        let r-found : r ≡ found = ap (λ p. p.0) (ok-injective h₁) in
        let same : db ≡ db' = ap (λ p. p.1) (ok-injective h₁) in
        (s, (v, accepted, sym r-found ∙ found', refl), rw (← same) holds)

    Runs-May :
        (es : List Event) (db db' : Db) (s : Contents)
        → All InRangeEvent es
        → Distinct s
        → length s + writes es ≤ limit_of (effective_limit limit)
        → Represents s (laws.view db)
        → Runs Did es db db'
        → (s' : Contents) × Runs May es s s' × Represents s' (laws.view db')
    Runs-May [] db db' s in_range distinct within holds h = (s, refl, rw h holds)
    Runs-May (e ∷ es) db db' s (here, later) distinct within holds (m, did, rest) =
        let (s₁, may, held) = step_May e db m s here (omega arith) holds did in
        let (distinct₁, balance) = Runs-Balanced (e ∷ []) s s₁ distinct (s₁, may, refl) in
        let left : length s₁ + writes es ≤ limit_of (effective_limit limit) =
          omega (arith, within, balance, more_writes e es) in
        let (s', run, held') = Runs-May es m db' s₁ later distinct₁ left held rest in
        (s', (s₁, may, run), held')

    -- A sequence of calls that returned is a run of the tuple space with the same answers, where the
    -- tables hold the tuples `s` first, which have different numbers, the values that were written are in
    -- the range of their Go types, and `s` and the writes together are no more than the limit on
    -- candidates. The tables hold the tuples of the last state, which have different numbers, and no
    -- tuple is lost or taken twice: those left and those taken are as many as `s` and the writes.
    pub run-May :
        (es : List Event) (db db' : Db) (s : Contents)
        → All InRangeEvent es
        → Distinct s
        → length s + writes es ≤ limit_of (effective_limit limit)
        → Represents s (laws.view db)
        → Runs Did es db db'
        → (s' : Contents) × Runs May es s s'
          × Represents s' (laws.view db')
          × Distinct s'
          × (length s' + takes es ≡ length s + writes es)
    run-May es db db' s in_range distinct within holds h =
        let (s', run, held) = Runs-May es db db' s in_range distinct within holds h in
        let (distinct', balance) = Runs-Balanced es s s' distinct run in
        (s', run, held, distinct', balance)
