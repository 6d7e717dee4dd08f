-- ===== src/Service/Refinement/Reads.antt =====
-- A whole read, as an operation of the tuple space at one moment (internal/service/service.go: `read`).
use tuplespace.Base.{
  ℕ, ◌≡◌, inl, inr, sym, ap, ◌∙◌, Bool, true, false, Option, some, List, [], ◌∷◌, Text, ℤ, ok, err,
  >>=-eq-ok, ok-injective, if◌then◌else◌,
}
use tuplespace.Types.{Template}
use tuplespace.Store.Database.{Postgres}
use tuplespace.Store.Query.Printed.{HasValues}
use tuplespace.Relational.Laws.{Relational}
use tuplespace.Relational.Represents.{Represents}
use tuplespace.Service.{Found, attempt, read_once}
use tuplespace.Service.Blocking.{
  World, Wake, notified, deadline, cancel, Outcome, returned, waiting, hung, Request, read_loop,
}
use tuplespace.Service.Blocking.Moments
use tuplespace.Service.Blocking.Moments.{AtMoment, Anywhere, Gives, read_loop-Ends}
use tuplespace.Service.Refinement.{WithinLimit}
use tuplespace.Service.Refinement.Steps.{read_once-oldest, consume_once-take_away}
use tuplespace.Space.{Contents, answer, oldest, take_away}

-- Of all contents that attempts are made on.
abbrev pub EveryMoment : {D : Type 0} → (D → Type 0) → List (Wake D) → World D → Type 0
EveryMoment P [] w = P w.db
EveryMoment P (notified seen ∷ events) w = P w.db × EveryMoment P events seen
EveryMoment P (_ ∷ events) w = P w.db

AtMoment-map :
    {D : Type 0} (P Q R : D → Type 0) (events : List (Wake D)) (w : World D)
    → ((db : D) → P db → R db → Q db)
    → EveryMoment R events w
    → AtMoment P events w
    → AtMoment Q events w
AtMoment-map P Q R [] w f r h = f w.db h r
AtMoment-map P Q R (notified seen ∷ events) w f (r, rs) (inl h) = inl (f w.db h r)
AtMoment-map P Q R (notified seen ∷ events) w f (r, rs) (inr h) =
    inr (AtMoment-map P Q R events seen f rs h)
AtMoment-map P Q R (deadline seen ∷ events) w f r h = f w.db h r
AtMoment-map P Q R (cancel seen ∷ events) w f r h = f w.db h r

module _ (pg : Postgres) (laws : Relational pg) (limit : ℤ) where
  open pg use {Db}

  -- The tables hold these tuples, and no more of them are preselected than the limit.
  abbrev pub Holds : Request → (Db → Contents) → Db → Type 0
  Holds q contents db =
      Represents (contents db) (laws.view db) × WithinLimit limit q.space q.template (contents db)

  -- The answer and the tables that are left, from the tuples that the tables held.
  abbrev pub Takes : Request → (Db → Contents) → Found → Db → Db → Type 0
  Takes q contents found left db =
      (some found ≡ answer (oldest q.space q.template (contents db)))
      × Represents
          (if q.destructive
            then take_away (oldest q.space q.template (contents db)) (contents db)
            else contents db)
          (laws.view left)

  abbrev pub ReadEnds :
      Request → (Db → Contents) → List (Wake Db) → World Db → Outcome Found Db → Type 0
  ReadEnds q contents events w (returned (ok found) w') =
      AtMoment (Takes q contents found w'.db) events w
  ReadEnds q contents events w (returned (err e) w') = Anywhere (λ db. w'.db ≡ db) events w
  ReadEnds q contents events w (waiting id w') = Anywhere (λ db. w'.db ≡ db) events w
  ReadEnds q contents events w (hung w') = ⊥

  gives_Takes :
      (destructive : Bool) (space : Text) (t : Template) (found : Found) (left db : Db)
      (s : Contents)
      → HasValues t.fields
      → attempt pg limit destructive space t db ≡ ok (some found, left)
      → Represents s (laws.view db)
      → WithinLimit limit space t s
      → (some found ≡ answer (oldest space t s))
        × Represents (if destructive then take_away (oldest space t s) s else s) (laws.view left)
  unfolding attempt
  gives_Takes true space t found left db s values h holds within =
      consume_once-take_away pg laws limit space t db left s (some found) values holds within h
  gives_Takes false space t found left db s values h holds within =
      let (r, e, h₁) = >>=-eq-ok (read_once pg limit space t db) _ h in
      let found' = read_once-oldest pg laws limit space t db s r values holds within e in
      (sym (ap (λ p. p.0) (ok-injective h₁)) ∙ found', rw (← ap (λ p. p.1) (ok-injective h₁)) holds)

  read-Ends :
      (q : Request) (contents : Db → Contents) (events : List (Wake Db)) (w : World Db)
      (o : Outcome Found Db)
      → HasValues q.template.fields
      → EveryMoment (Holds q contents) events w
      → Moments.Ends pg limit q events w o
      → ReadEnds q contents events w o
  read-Ends q contents events w (returned (ok found) w') values held h =
      AtMoment-map (Gives pg limit q found w'.db) (Takes q contents found w'.db) (Holds q contents)
        events w
        (λ db g (holds, within).
          gives_Takes q.destructive q.space q.template found w'.db db (contents db) values g holds
            within)
        held h
  read-Ends q contents events w (returned (err e) w') values held h = h
  read-Ends q contents events w (waiting id w') values held h = h
  read-Ends q contents events w (hung w') values held h = h

  -- Where the tables hold tuples, no more of them preselected than the limit, each time that a read makes
  -- an attempt, and its template has values of their types in its actual fields: a read that answers with
  -- a tuple has, at one of its attempts, found the oldest tuple of the space that matches, with its
  -- bindings, and leaves tables that hold the other tuples if it takes, and all of them if it does not. A
  -- read that answers with an error, or still waits, leaves contents that it saw as they were.
  pub read_loop-ReadEnds :
      (q : Request) (contents : Db → Contents) (events : List (Wake Db)) (waiter : Option ℕ)
      (w : World Db)
      → HasValues q.template.fields
      → EveryMoment (Holds q contents) events w
      → ReadEnds q contents events w (read_loop pg limit q events waiter w)
  read_loop-ReadEnds q contents events waiter w values held =
      read-Ends q contents events w _ values held (read_loop-Ends pg limit q events waiter w)
