-- ===== src/Service/Refinement.antt =====
-- The service keeps a tuple space (internal/service/service.go): what it takes, reads and writes in
-- the tables is what the operations of Space.antt say, as long as the limit on candidates holds those
-- that are preselected.
pub mod Ranges
pub mod Preselected
pub mod Steps
pub mod Runs
pub mod Reads
use tuplespace.Base.{ℕ, ◌≤◌, List, length, keep, ℤ, pos, negsuc, Text}
use tuplespace.Types.{Template}
use tuplespace.Store.{StoredTuple}
use tuplespace.Store.Query.{effective_limit}
use tuplespace.Relational.Candidates.{preselects}
use tuplespace.Space.{Contents}

abbrev pub limit_of : ℤ → ℕ
limit_of (pos n) = n
limit_of (negsuc n) = 0

-- The limit on candidates holds every tuple that agrees in the space, the arity and the actual fields.
abbrev pub WithinLimit : ℤ → Text → Template → Contents → Type 0
WithinLimit limit space t s =
    length (keep (preselects space t) s) ≤ limit_of (effective_limit limit)
