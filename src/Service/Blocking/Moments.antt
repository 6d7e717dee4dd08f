-- ===== src/Service/Blocking/Moments.antt =====
-- When a read takes its tuple (the loop of `read`, internal/service/service.go): among the contents that
-- it sees one after the other.
use tuplespace.Base.{
  ℕ, ◌≡◌, ◌⊎◌, inl, inr, refl, sym, ap, ◌∙◌, Bool, true, false, Option, none, some, List, [], ◌∷◌,
  Text, ℤ, Result, ok, err, wrap, or_fail, >>=-eq-ok, ok-injective, ◌==◌, Bool-cases,
}
use tuplespace.Types.{Template}
use tuplespace.Match.{Bindings}
use tuplespace.Store.{StoredTuple, lock_candidates_for_consume, delete_tuple}
use tuplespace.Store.Database.{Postgres}
use tuplespace.Service.{
  Error, not_found, timeout, canceled, begin_failed, commit_failed, store, Found, first_match,
  read_once, consume, consume_once, attempt,
}
use tuplespace.Service.Blocking.{
  World, Wake, notified, deadline, cancel, Outcome, returned, waiting, hung, Request, finish, enter,
  after_attempt, read_loop,
}

-- Of the contents that attempts are made on.
abbrev pub AtMoment : {D : Type 0} → (D → Type 0) → List (Wake D) → World D → Type 0
AtMoment P [] w = P w.db
AtMoment P (notified seen ∷ events) w = P w.db ⊎ AtMoment P events seen
AtMoment P (_ ∷ events) w = P w.db

-- Of all contents that the read sees.
abbrev pub Anywhere : {D : Type 0} → (D → Type 0) → List (Wake D) → World D → Type 0
Anywhere P [] w = P w.db
Anywhere P (notified seen ∷ events) w = P w.db ⊎ Anywhere P events seen
Anywhere P (deadline seen ∷ events) w = P w.db ⊎ P seen.db
Anywhere P (cancel seen ∷ events) w = P w.db ⊎ P seen.db

AtMoment-first :
    {D : Type 0} (P : D → Type 0) (events : List (Wake D)) (w : World D)
    → P w.db
    → AtMoment P events w
AtMoment-first P [] w h = h
AtMoment-first P (notified seen ∷ events) w h = inl h
AtMoment-first P (deadline seen ∷ events) w h = h
AtMoment-first P (cancel seen ∷ events) w h = h

Anywhere-first :
    {D : Type 0} (P : D → Type 0) (events : List (Wake D)) (w : World D)
    → P w.db
    → Anywhere P events w
Anywhere-first P [] w h = h
Anywhere-first P (notified seen ∷ events) w h = inl h
Anywhere-first P (deadline seen ∷ events) w h = inl h
Anywhere-first P (cancel seen ∷ events) w h = inl h

module _ (pg : Postgres) (limit : ℤ) where
  open pg use {Db}

  -- The attempt of the request on these contents gives the tuple, and leaves those.
  abbrev pub Gives : Request → Found → Db → Db → Type 0
  Gives q found left db =
      attempt pg limit q.destructive q.space q.template db ≡ ok (some found, left)

  abbrev pub Ends : Request → List (Wake Db) → World Db → Outcome Found Db → Type 0
  Ends q events w (returned (ok found) w') = AtMoment (Gives q found w'.db) events w
  Ends q events w (returned (err e) w') = Anywhere (λ db. w'.db ≡ db) events w
  Ends q events w (waiting id w') = Anywhere (λ db. w'.db ≡ db) events w
  Ends q events w (hung w') = ⊥

  consume-none :
      (db tx db' : Db) (o : Option (StoredTuple × Bindings))
      → consume pg limit db tx o ≡ ok (none, db')
      → db' ≡ db
  unfolding consume
  consume-none db tx db' none h = sym (ap (λ p. p.1) (ok-injective h))
  consume-none db tx db' (some (c, b)) h =
      let (tx', e₁, h₁) = >>=-eq-ok (wrap store (delete_tuple pg c.id tx)) _ h in
      let (d, e₂, h₂) = >>=-eq-ok (or_fail commit_failed (pg.commit db tx')) _ h₁ in cc

  -- An attempt that finds nothing changes nothing.
  attempt-none :
      (d : Bool) (space : Text) (t : Template) (db db' : Db)
      → attempt pg limit d space t db ≡ ok (none, db')
      → db' ≡ db
  unfolding attempt consume_once
  attempt-none false space t db db' h =
      let (f, e, h₁) = >>=-eq-ok (read_once pg limit space t db) _ h in
      sym (ap (λ p. p.1) (ok-injective h₁))
  attempt-none true space t db db' h =
      let (tx, e₁, h₁) = >>=-eq-ok (or_fail begin_failed (pg.begin db)) _ h in
      let (cs, e₂, h₂) =
        >>=-eq-ok (wrap store (lock_candidates_for_consume pg space t limit tx)) _ h₁ in
      consume-none db tx db' (first_match t cs) h₂

  finish_err :
      (q : Request) (events : List (Wake Db)) (w : World Db) (waiter : Option ℕ) (e : Error)
      (w' : World Db)
      → Anywhere (λ db. w'.db ≡ db) events w
      → Ends q events w (finish waiter (err e) w')
  unfolding finish
  finish_err q events w none e w' h = h
  finish_err q events w (some id) e w' h = h

  finish_ok :
      (q : Request) (events : List (Wake Db)) (w : World Db) (waiter : Option ℕ) (found : Found)
      (w' : World Db)
      → AtMoment (Gives q found w'.db) events w
      → Ends q events w (finish waiter (ok found) w')
  unfolding finish
  finish_ok q events w none found w' h = h
  finish_ok q events w (some id) found w' h = h

  enter_db : (q : Request) (waiter : Option ℕ) (w : World Db) → (enter q waiter w).1.db ≡ w.db
  unfolding enter
  enter_db q none w = refl
  enter_db q (some id) w = refl

  after_attempt-Ends :
      (q : Request) (events : List (Wake Db)) (waiter : Option ℕ)
      (next : ℕ × World Db → Outcome Found Db) (w : World Db) (r : Result Error (Option Found × Db))
      → attempt pg limit q.destructive q.space q.template w.db ≡ r
      → ((entered : ℕ × World Db) → entered.1.db ≡ w.db → Ends q events w (next entered))
      → Ends q events w (after_attempt pg limit q waiter next w r)
  unfolding after_attempt
  after_attempt-Ends q events waiter next w (err e) h k =
      finish_err q events w waiter e w (Anywhere-first (λ db. w.db ≡ db) events w refl)
  after_attempt-Ends q events waiter next w (ok (some found, db')) h k =
      finish_ok q events w waiter found (record w { db = db' })
        (AtMoment-first (Gives q found db') events w h)
  after_attempt-Ends q events waiter next w (ok (none, db')) h k =
      let same = attempt-none q.destructive q.space q.template w.db db' h in
      elim (Bool-cases (q.wait == 0)) [
        | inl e ↦ rw e (
            finish_err q events w waiter not_found (record w { db = db' })
              (Anywhere-first (λ db. db' ≡ db) events w same))
        | inr e ↦ rw e (
            k (enter q waiter (record w { db = db' }))
              (enter_db q waiter (record w { db = db' }) ∙ same))
      ]

  later_Ends :
      (q : Request) (events : List (Wake Db)) (w seen : World Db) (o : Outcome Found Db)
      → Ends q events seen o
      → Ends q (notified seen ∷ events) w o
  later_Ends q events w seen (returned (ok found) w') h = inr h
  later_Ends q events w seen (returned (err e) w') h = inr h
  later_Ends q events w seen (waiting id w') h = inr h
  later_Ends q events w seen (hung w') h = h

  -- A read that answers with a tuple made an attempt, on one of the contents that it saw, that gave this
  -- tuple, and leaves what that attempt left. A read that answers with an error, or still waits, has left
  -- one of the contents that it saw as it was.
  pub read_loop-Ends :
      (q : Request) (events : List (Wake Db)) (waiter : Option ℕ) (w : World Db)
      → Ends q events w (read_loop pg limit q events waiter w)
  unfolding read_loop
  read_loop-Ends q [] waiter w =
      after_attempt-Ends q [] waiter (λ (id, w'). waiting id w') w _ refl (λ (id, w') same. same)
  read_loop-Ends q (notified seen ∷ events) waiter w =
      after_attempt-Ends q (notified seen ∷ events) waiter
        (λ (id, w'). read_loop pg limit q events (some id) seen) w _ refl
        (λ (id, w') same. later_Ends q events w seen _ (read_loop-Ends q events (some id) seen))
  read_loop-Ends q (deadline seen ∷ events) waiter w =
      after_attempt-Ends q (deadline seen ∷ events) waiter
        (λ (id, w'). finish (some id) (err timeout) seen) w _ refl
        (λ (id, w') same. finish_err q (deadline seen ∷ events) w (some id) timeout seen (inr refl))
  read_loop-Ends q (cancel seen ∷ events) waiter w =
      after_attempt-Ends q (cancel seen ∷ events) waiter
        (λ (id, w'). finish (some id) (err canceled) seen) w _ refl
        (λ (id, w') same. finish_err q (cancel seen ∷ events) w (some id) canceled seen (inr refl))
