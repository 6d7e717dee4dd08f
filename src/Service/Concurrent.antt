-- ===== src/Service/Concurrent.antt =====
-- Several calls of `consumeOnce` at once, with writers (internal/service/service.go): what a call does
-- between its begin and its commit or rollback, as steps that may come in any order. SELECT … FOR UPDATE
-- SKIP LOCKED passes over the rows that another open transaction has locked, and locks those it gives.
pub mod Locks
pub mod Exclusive
pub mod Oldest
use tuplespace.Base.{
  ℕ, zero, suc, ◌+◌, ◌≡◌, Bool, true, false, ◌&&◌, not, Option, none, some, List, [], ◌∷◌, ◌++◌,
  Text, ◌==◌, keep, ℤ, int_eq, if◌then◌else◌,
}
use tuplespace.Types.{Tuple, Template}
use tuplespace.Match.{Bindings}
use tuplespace.Store.{StoredTuple}
use tuplespace.Store.Query.{effective_limit}
use tuplespace.Relational.Select.{take_rows}
use tuplespace.Relational.Candidates.{preselects}
use tuplespace.Space.{Contents, put, take_away}
use tuplespace.Service.{first_match}
use tuplespace.Service.Once.{ids, has_id}

-- A transaction between its SELECT and its end.
pub record Consumer : Type 0 where
  pub locked : List ℤ
  pub chosen : Option (StoredTuple × Bindings)

-- The committed tuples, the open transactions, and the numbers of the tuples that were answered.
pub record Shared : Type 0 where
  pub table : Contents
  pub consumers : List Consumer
  pub taken : List ℤ

-- How many of the transactions have locked the row.
abbrev pub holders : ℤ → List Consumer → ℕ
holders id [] = 0
holders id (c ∷ cs) = if has_id id c.locked then suc (holders id cs) else holders id cs

-- The rows that SELECT … FOR UPDATE SKIP LOCKED gives.
unfoldable pub unlocked_candidates : ℤ → Text → Template → Shared → Contents
unlocked_candidates limit space t s =
    take_rows (effective_limit limit)
      (keep (λ e. (holders e.id s.consumers == 0) && preselects space t e) s.table)

-- The transaction that they are given to, behind its loop over them.
unfoldable pub consumer_of : Template → Contents → Consumer
consumer_of t candidates = record { locked = ids candidates; chosen = first_match t candidates }

abbrev times_id : ℤ → List ℤ → ℕ
times_id id [] = 0
times_id id (j ∷ js) = if int_eq j id then suc (times_id id js) else times_id id js

pub data Step (limit : ℤ) (s : Shared) : Shared → Type 0 where
  lock :
      (space : Text) (t : Template)
      → Step limit s (record s {
        consumers = consumer_of t (unlocked_candidates limit space t s) ∷ s.consumers;
      })
  -- DELETE and COMMIT, and the return of the tuple.
  commit :
      (before after : List Consumer) (c : Consumer) (e : StoredTuple) (b : Bindings)
      → s.consumers ≡ before ++ c ∷ after
      → c.chosen ≡ some (e, b)
      → Step limit s (record {
        table = take_away c.chosen s.table;
        consumers = before ++ after;
        taken = e.id ∷ s.taken;
      })
  -- No candidate matches, or a statement fails.
  rollback :
      (before after : List Consumer) (c : Consumer)
      → s.consumers ≡ before ++ c ∷ after
      → Step limit s (record s { consumers = before ++ after })
  -- BIGSERIAL gives a number that it never gave before.
  writer_commit :
      (id : ℤ) (space : Text) (u : Tuple)
      → has_id id (ids s.table) ≡ false
      → has_id id s.taken ≡ false
      → Step limit s (record s { table = put id space u s.table })

abbrev pub nothing_stored : Shared
nothing_stored = record { table = []; consumers = []; taken = [] }

pub data Reach (limit : ℤ) : Shared → Type 0 where
  start : Reach limit nothing_stored
  next : {s s' : Shared} → Reach limit s → Step limit s s' → Reach limit s'
