-- ===== src/Tests/Interleaved.antt =====
-- Two consumers and a writer: internal/service/service.go.
use tuplespace.Base.{
  ◌≡◌, refl, none, some, arith, [], ◌∷◌, codes, text_eq, pos, int_eq, not_positive,
}
use tuplespace.Types.{int64, normalize_value, normalize_int}
use tuplespace.Strconv.{parse_int}
use tuplespace.Match.{Bindings, match, match_field, equal_value, any_eq, lookup}
use tuplespace.Store.{StoredTuple}
use tuplespace.Relational.Select.{column_holds}
use tuplespace.Space.{put, take_away}
use tuplespace.Service.{first_match}
use tuplespace.Service.Concurrent.{
  Consumer, Shared, consumer_of, unlocked_candidates, nothing_stored, Reach, start, next, lock,
  commit, writer_commit,
}
use tuplespace.Service.Concurrent.Oldest.{unlocked, consumer_of-oldest}
use tuplespace.Service.Refinement.{WithinLimit}
use tuplespace.Space.{oldest}
use tuplespace.Tests.Spaces.{wanted-HasValues}
use tuplespace.Service.Concurrent.Exclusive.{Exclusive, Reach-Exclusive}
use tuplespace.Tests.Tuples.{stored, wanted, stored-IsNormal}

abbrev written : Shared
written = record nothing_stored { table = put (pos 1) (codes "jobs") stored [] }

abbrev first : Consumer
first = consumer_of wanted (unlocked_candidates (pos 64) (codes "jobs") wanted written)

abbrev locked_once : Shared
locked_once = record written { consumers = first ∷ [] }

abbrev second : Consumer
second = consumer_of wanted (unlocked_candidates (pos 64) (codes "jobs") wanted locked_once)

abbrev first_done : Shared
first_done = record {
  table = take_away first.chosen written.table;
  consumers = second ∷ [];
  taken = pos 1 ∷ [];
}

abbrev the_job : StoredTuple
the_job = record { id = pos 1; space = codes "jobs"; tuple = stored }

abbrev job_bindings : Bindings
job_bindings = (codes "id", int64 (pos 42)) ∷ []

first_chosen : first.chosen ≡ some (the_job, job_bindings)
unfolding consumer_of unlocked_candidates first_match match match_field equal_value any_eq lookup
    normalize_value normalize_int parse_int text_eq int_eq not_positive column_holds
first_chosen = refl

reached : Reach (pos 64) first_done
reached =
    next
      (next
        (next (next start (writer_commit (pos 1) (codes "jobs") stored refl refl))
          (lock (codes "jobs") wanted))
        (lock (codes "jobs") wanted))
      (commit (second ∷ []) [] first the_job job_bindings refl first_chosen)

Reach-Exclusive_example : Exclusive first_done
Reach-Exclusive_example = Reach-Exclusive (pos 64) first_done reached

few : WithinLimit (pos 64) (codes "jobs") wanted (unlocked locked_once)
unfolding not_positive text_eq column_holds consumer_of unlocked_candidates int_eq
few = omega arith

consumer_of-oldest_example : second.chosen ≡ oldest (codes "jobs") wanted (unlocked locked_once)
consumer_of-oldest_example =
    consumer_of-oldest (pos 64) (codes "jobs") wanted locked_once wanted-HasValues
      (stored-IsNormal, tt) few

-- The second consumer passes over the row that the first has locked.
second_chosen : second.chosen ≡ none
unfolding consumer_of unlocked_candidates first_match match match_field equal_value any_eq lookup
    normalize_value normalize_int parse_int text_eq int_eq not_positive column_holds
second_chosen = refl
