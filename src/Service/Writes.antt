-- ===== src/Service/Writes.antt =====
-- `Out` makes no mistake of its own (internal/service/service.go).
use tuplespace.Base.{
  ℕ, ◌≡◌, inl, inr, refl, Bool, false, Option, none, some, List, Text, ℤ, Result, ok, err, ◌>>=◌,
  wrap, or_fail, Result-cases, Option-cases,
}
use tuplespace.Types.{Tuple}
use tuplespace.Validation.{validate_space, validate_tuple}
use tuplespace.Validation.Accepted.{validate_tuple-IsStorable}
use tuplespace.Store
use tuplespace.Store.{insert_tuple}
use tuplespace.Store.Database.{Postgres}
use tuplespace.Store.Writes.{is_mistake, NoMistake, insert_tuple-NoMistake}
use tuplespace.Notify.Channel.{channel_name}
use tuplespace.Service.{Error, out, notify_failed, commit_failed, store}

-- An error of the store that no statement of PostgreSQL caused.
abbrev pub is_own_mistake : Error → Bool
is_own_mistake (store e) = is_mistake e
is_own_mistake _ = false

abbrev pub OutSound : {A : Type 0} → Result Error A → Type 0
OutSound (ok a) = Unit
OutSound (err e) = is_own_mistake e ≡ false

module _ (pg : Postgres) (sha1 : Text → List ℕ) where
  open pg use {Db, begin, commit, pg_notify}

  commit_sound : (o : Option Db) → OutSound (or_fail commit_failed o)
  commit_sound none = refl
  commit_sound (some db) = tt

  notify_sound :
      (db : Db) (o : Option Db)
      → OutSound (or_fail notify_failed o >>= λ tx. or_fail commit_failed (commit db tx))
  notify_sound db none = refl
  notify_sound db (some tx) = commit_sound (commit db tx)

  insert_sound :
      (space : Text) (db : Db) (r : Result Store.Error (ℤ × Db))
      → NoMistake r
      → OutSound (
          wrap store r >>= λ (id, tx).
          or_fail notify_failed (pg_notify tx (channel_name sha1 space)) >>= λ tx'.
          or_fail commit_failed (commit db tx'))
  insert_sound space db (err e) h = h
  insert_sound space db (ok (id, tx)) h = notify_sound db (pg_notify tx (channel_name sha1 space))

  -- A request to store a tuple, whatever the tuple is, never ends in a failed type assertion or in a
  -- field without a column: it succeeds, is refused by the validation, or fails with a statement of
  -- PostgreSQL.
  pub out-OutSound :
      (space : Text) (tuple : Tuple) (db : Db) → OutSound (out pg sha1 space tuple db)
  unfolding out
  out-OutSound space tuple db = elim (Result-cases (validate_space space)) [
    | inr (e, h) ↦ rw h refl
    | inl (u, h) ↦ elim (Result-cases (validate_tuple tuple)) [
      | inr (e, k) ↦ rw h (rw k refl)
      | inl (t, k) ↦ elim (Option-cases (begin db)) [
        | inl b ↦ rw h (rw k (rw b refl))
        | inr (tx, b) ↦
            let normal = (validate_tuple-IsStorable tuple t k).0.1 in
            rw h (
              rw k (
                rw b (
                  insert_sound space db (insert_tuple pg space t tx)
                    (insert_tuple-NoMistake pg space t tx normal))))
      ]
    ]
  ]
