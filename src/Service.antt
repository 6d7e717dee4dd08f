-- ===== src/Service.antt =====
-- internal/service/service.go: writing, reading and taking tuples. Each call takes the contents of the
-- database and returns those it leaves; a transaction that is not committed leaves them as they were.
pub mod Waiters
pub mod Snapshots
pub mod Writes
pub mod Refinement
pub mod Blocking
pub mod Once
pub mod Admin
pub mod Schema
pub mod Deletes
pub mod Settings
pub mod Concurrent
use tuplespace.Base.{
  ℕ, or_fail, Bool, true, false, Option, none, some, List, [], ◌∷◌, Text, if◌then◌else◌, ℤ, pos,
  not_positive, Result, ok, err, ◌>>=◌, ◌>>◌, wrap,
}
use tuplespace.Types.{Tuple, Template}
use tuplespace.Validation
use tuplespace.Validation.{validate_space, validate_tuple, validate_template}
use tuplespace.Match.{Bindings, match}
use tuplespace.Store
use tuplespace.Store.{
  StoredTuple, insert_tuple, find_candidates, lock_candidates_for_consume, delete_tuple,
}
use tuplespace.Store.Database.{Postgres}
use tuplespace.Notify
use tuplespace.Notify.Channel.{channel_name}

-- The errors of the package: the two of errors.go, those it passes on, and those it makes.
pub data Error : Type 0 where
  not_found timeout canceled negative_wait : Error
  begin_failed notify_failed commit_failed schema_failed : Error
  invalid : Validation.Error → Error
  store : Store.Error → Error
  notifier : Notify.Error → Error

-- `options.CandidateLimit`, with the default of `New`.
unfoldable pub candidate_limit : ℤ → ℤ
candidate_limit limit = if not_positive limit then pos 64 else limit

-- The tuple that a read found, with its bindings.
abbrev pub Found : Type 0
Found = Tuple × Bindings

-- The loop over the candidates: the first that matches.
unfoldable pub first_match : Template → List StoredTuple → Option (StoredTuple × Bindings)
first_match template [] = none
first_match template (c ∷ cs) =
    let rest = first_match template cs in
    (elim (match template c.tuple) [ some b ↦ some (c, b) | none ↦ rest ])

abbrev found_of : Option (StoredTuple × Bindings) → Option Found
found_of none = none
found_of (some (c, b)) = some (c.tuple, b)

module _ (pg : Postgres) (sha1 : Text → List ℕ) where
  open pg use {Db, begin, commit, pg_notify}

  unfoldable pub out : Text → Tuple → Db → Result Error Db
  out space tuple db = do
    wrap invalid (validate_space space)
    normalized ← wrap invalid (validate_tuple tuple)
    tx ← or_fail begin_failed (begin db)
    (id, tx₁) ← wrap store (insert_tuple pg space normalized tx)
    tx₂ ← or_fail notify_failed (pg_notify tx₁ (channel_name sha1 space))
    or_fail commit_failed (commit db tx₂)

module _ (pg : Postgres) (limit : ℤ) where
  open pg use {Db, begin, commit}

  unfoldable pub read_once : Text → Template → Db → Result Error (Option Found)
  read_once space template db = do
    candidates ← wrap store (find_candidates pg space template limit db)
    ok (found_of (first_match template candidates))

  -- The body of the loop for the candidate that matches: no other is looked at after it.
  consume : Db → Db → Option (StoredTuple × Bindings) → Result Error (Option Found × Db)
  consume db tx none = ok (none, db)
  consume db tx (some (c, b)) = do
    tx' ← wrap store (delete_tuple pg c.id tx)
    db' ← or_fail commit_failed (commit db tx')
    ok (some (c.tuple, b), db')

  unfoldable pub consume_once : Text → Template → Db → Result Error (Option Found × Db)
  unfolding consume
  consume_once space template db = do
    tx ← or_fail begin_failed (begin db)
    candidates ← wrap store (lock_candidates_for_consume pg space template limit tx)
    consume db tx (first_match template candidates)

  -- One attempt of the loop of `read`.
  unfoldable pub attempt : Bool → Text → Template → Db → Result Error (Option Found × Db)
  attempt true space template db = consume_once space template db
  attempt false space template db = do found ← read_once space template db; ok (found, db)
