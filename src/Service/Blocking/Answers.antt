-- ===== src/Service/Blocking/Answers.antt =====
-- What the answers of `read` mean (internal/service/service.go), and that it gives one where the
-- notifier answers it.
use tuplespace.Base.{
  ℕ, or_fail, ◌≡◌, inl, inr, refl, Bool, true, false, ◌||◌, Option, none, some, List, [], ◌∷◌, Text,
  ℤ, Result, ok, err, ◌>>=◌, wrap, arith, ◌==◌, Bool-cases, Option-cases, Result-cases,
}
use tuplespace.Types.{Tuple, Template}
use tuplespace.Match.{Bindings, match}
use tuplespace.Store
use tuplespace.Store.{StoredTuple, find_candidates, lock_candidates_for_consume, delete_tuple}
use tuplespace.Store.Database.{Postgres}
use tuplespace.Service.{
  Error, begin_failed, not_found, timeout, canceled, commit_failed, store, Found, first_match,
  found_of, read_once, consume, consume_once, attempt,
}
use tuplespace.Service.Once.{FirstMatch, first_match_lem}
use tuplespace.Service.Blocking.{
  World, Wake, notified, deadline, cancel, Outcome, returned, waiting, hung, Request, finish, enter,
  after_attempt, read_loop,
}

abbrev pub has_deadline : {D : Type 0} → List (Wake D) → Bool
has_deadline [] = false
has_deadline (deadline w ∷ events) = true
has_deadline (_ ∷ events) = has_deadline events

abbrev pub has_cancel : {D : Type 0} → List (Wake D) → Bool
has_cancel [] = false
has_cancel (cancel w ∷ events) = true
has_cancel (_ ∷ events) = has_cancel events

-- An error of the database or of the store.
abbrev pub is_internal : Error → Bool
is_internal begin_failed = true
is_internal commit_failed = true
is_internal (store e) = true
is_internal _ = false

abbrev Attempted : {D : Type 0} → Template → Result Error (Option Found × D) → Type 0
Attempted t (ok (none, db)) = Unit
Attempted t (ok (some (tuple, b), db)) = match t tuple ≡ some b
Attempted t (err e) = is_internal e ≡ true

module _ (pg : Postgres) (limit : ℤ) where
  open pg use {Db, begin, commit}

  found_of-Attempted :
      (t : Template) (cs : List StoredTuple) (db : Db) (o : Option (StoredTuple × Bindings))
      → FirstMatch t cs o
      → Attempted t (ok (found_of o, db))
  found_of-Attempted t cs db none m = tt
  found_of-Attempted t cs db (some (c, b)) (before, after, split, misses, found) = found

  read-Attempted :
      (t : Template) (db : Db) (r : Result Store.Error (List StoredTuple))
      → Attempted t
          (wrap store r >>= (λ cs. ok (found_of (first_match t cs))) >>= (λ f. ok (f, db)))
  read-Attempted t db (err e) = refl
  read-Attempted t db (ok cs) = found_of-Attempted t cs db (first_match t cs) (first_match_lem t cs)

  commit-Attempted :
      (t : Template) (tuple : Tuple) (b : Bindings) (o : Option Db)
      → match t tuple ≡ some b
      → Attempted t (or_fail commit_failed o >>= λ db'. ok (some (tuple, b), db'))
  commit-Attempted t tuple b none found = refl
  commit-Attempted t tuple b (some db') found = found

  consume-Attempted :
      (t : Template) (cs : List StoredTuple) (db tx : Db) (o : Option (StoredTuple × Bindings))
      → FirstMatch t cs o
      → Attempted t (consume pg limit db tx o)
  unfolding consume
  consume-Attempted t cs db tx none m = tt
  consume-Attempted t cs db tx (some (c, b)) (before, after, split, misses, found) =
      elim (Result-cases (delete_tuple pg c.id tx)) [
        | inl (tx', e) ↦ rw e (commit-Attempted t c.tuple b (commit db tx') found)
        | inr (e, h) ↦ rw h refl
      ]

  attempt-Attempted :
      (d : Bool) (space : Text) (t : Template) (db : Db)
      → Attempted t (attempt pg limit d space t db)
  unfolding attempt read_once consume_once
  attempt-Attempted false space t db = read-Attempted t db (find_candidates pg space t limit db)
  attempt-Attempted true space t db = elim (Option-cases (begin db)) [
    | inl e ↦ rw e refl
    | inr (tx, e) ↦ elim (Result-cases (lock_candidates_for_consume pg space t limit tx)) [
      | inl (cs, h) ↦
          rw e (rw h (consume-Attempted t cs db tx (first_match t cs) (first_match_lem t cs)))
      | inr (f, h) ↦ rw e (rw h refl)
    ]
  ]

-- What an answer says, where `late` is whether the deadline passed and `given_up` whether the caller
-- gave up.
abbrev pub Answer : Request → (late given_up : Bool) → Result Error Found → Type 0
Answer q late given_up (ok (tuple, b)) = match q.template tuple ≡ some b
Answer q late given_up (err not_found) = q.wait ≡ 0
Answer q late given_up (err timeout) = late ≡ true
Answer q late given_up (err canceled) = given_up ≡ true
Answer q late given_up (err e) = is_internal e ≡ true

abbrev pub Answered : {D : Type 0} → Request → (late given_up : Bool) → Outcome Found D → Type 0
Answered q late given_up (returned r w) = Answer q late given_up r
Answered q late given_up (waiting id w) = (late || given_up) ≡ false
Answered q late given_up (hung w) = ⊥

internal-Answer :
    (q : Request) (late given_up : Bool) (e : Error)
    → is_internal e ≡ true
    → Answer q late given_up (err e)
internal-Answer q late given_up begin_failed h = refl
internal-Answer q late given_up commit_failed h = refl
internal-Answer q late given_up (store e) h = refl
internal-Answer q late given_up _ h = cc

finish-Answered :
    {D : Type 0} (q : Request) (late given_up : Bool) (waiter : Option ℕ) (r : Result Error Found)
    (w : World D)
    → Answer q late given_up r
    → Answered q late given_up (finish waiter r w)
unfolding finish
finish-Answered q late given_up none r w h = h
finish-Answered q late given_up (some id) r w h = h

module _ (pg : Postgres) (limit : ℤ) where
  open pg use {Db}

  after_attempt-Answered :
      (q : Request) (late given_up : Bool) (waiter : Option ℕ)
      (next : ℕ × World Db → Outcome Found Db) (w : World Db) (r : Result Error (Option Found × Db))
      → Attempted q.template r
      → ((entered : ℕ × World Db) → Answered q late given_up (next entered))
      → Answered q late given_up (after_attempt pg limit q waiter next w r)
  unfolding after_attempt
  after_attempt-Answered q late given_up waiter next w (err e) h k =
      finish-Answered q late given_up waiter (err e) w (internal-Answer q late given_up e h)
  after_attempt-Answered q late given_up waiter next w (ok (some (tuple, b), db')) h k =
      finish-Answered q late given_up waiter (ok (tuple, b)) (record w { db = db' }) h
  after_attempt-Answered q late given_up waiter next w (ok (none, db')) h k =
      elim (Bool-cases (q.wait == 0)) [
        | inl e ↦ rw e (
            finish-Answered q late given_up waiter (err not_found) (record w { db = db' })
              (ground arith))
        | inr e ↦ rw e (k (enter q waiter (record w { db = db' })))
      ]

  -- The loop of a read ends as soon as it sees its deadline or its caller's cancellation: it waits only
  -- as long as it has seen neither. It answers with a tuple only if that tuple matches the template
  -- under the bindings it gives, with "not found" only if the wait is 0, with a timeout only after the
  -- deadline, with a cancellation only after the caller's, and else with an error of the database.
  pub read_loop-Answered :
      (q : Request) (events : List (Wake Db)) (waiter : Option ℕ) (w : World Db)
      → Answered q (has_deadline events) (has_cancel events) (read_loop pg limit q events waiter w)
  unfolding read_loop
  read_loop-Answered q [] waiter w =
      after_attempt-Answered q false false waiter (λ (id, w'). waiting id w') w _
        (attempt-Attempted pg limit q.destructive q.space q.template w.db) (λ (id, w'). refl)
  read_loop-Answered q (notified seen ∷ events) waiter w =
      after_attempt-Answered q (has_deadline events) (has_cancel events) waiter
        (λ (id, w'). read_loop pg limit q events (some id) seen) w _
        (attempt-Attempted pg limit q.destructive q.space q.template w.db)
        (λ (id, w'). read_loop-Answered q events (some id) seen)
  read_loop-Answered q (deadline seen ∷ events) waiter w =
      after_attempt-Answered q true (has_cancel events) waiter
        (λ (id, w'). finish (some id) (err timeout) seen) w _
        (attempt-Attempted pg limit q.destructive q.space q.template w.db)
        (λ (id, w'). finish-Answered q true (has_cancel events) (some id) (err timeout) seen refl)
  read_loop-Answered q (cancel seen ∷ events) waiter w =
      after_attempt-Answered q (has_deadline events) true waiter
        (λ (id, w'). finish (some id) (err canceled) seen) w _
        (attempt-Attempted pg limit q.destructive q.space q.template w.db)
        (λ (id, w').
          finish-Answered q (has_deadline events) true (some id) (err canceled) seen refl)
