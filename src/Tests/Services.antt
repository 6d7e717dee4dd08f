-- ===== src/Tests/Services.antt =====
-- The service on a small database: internal/service, internal/store.
use tuplespace.Base.{
  ℕ, ◌≡◌, refl, Bool, true, false, some, List, [], ◌∷◌, Text, codes, ℤ, pos, int_eq, ok, text_eq,
  arith, ◌&&◌, not, not_positive,
}
use tuplespace.Strconv.{parse_int, format_nat}
use tuplespace.Types.{
  nil, string, int64, int, Template, field_actual, field_formal, type_string, type_int,
  normalize_tuple, normalize_value, normalize_int,
}
use tuplespace.Match.{match, equal_value, any_eq, lookup}
use tuplespace.Store.RoundTrip.{decode_tuple-marshal}
use tuplespace.Store.{
  StoredTuple, lock_candidates_for_consume, query_candidates, decode_rows, decode_tuple,
  delete_tuple,
}
use tuplespace.Store.Query.{build_candidate_query}
use tuplespace.Store.Query.Printed.{HasValues, candidate_select, build_candidate_query-print_select}
use tuplespace.Relational.Select.{print_select, select_args}
use tuplespace.Store.Codec.{marshal, Payload, text, number, unmarshal}
use tuplespace.Service.{Found, first_match, consume_once, read_once, attempt}
use tuplespace.Service
use tuplespace.Service.Admin
use tuplespace.Service.Schema.{
  contains, schema_of, schema_of_lem, required_schema_tables, required_schema_indexes,
}
use tuplespace.Service.Waiters.{Register, register_waiter, waiters_snapshot}
use tuplespace.Service.Snapshots.{InOrder, occurrences, waiters_snapshot-InOrder}
use tuplespace.Service.Blocking.{World, Wake, notified, deadline, subscribed, read}
use tuplespace.Service.Blocking.Entries.{Registered}
use tuplespace.Service.Blocking.Leaves.{read-Registered}
use tuplespace.Service.Blocking.Whole.{ReadAnswered, read-ReadAnswered}
use tuplespace.Store.Admin.{delete_tuple_by_id}
use tuplespace.Tests.Database.{rows, Rows}

abbrev job : ℤ → Text → Payload
job id n =
    record { type = type_string; value = text (codes "job") }
    ∷ record { type = type_int; value = number n }
    ∷ []

abbrev two_jobs : Rows
two_jobs =
    record { id = pos 1; space = codes "jobs"; payload = job (pos 1) (codes "7") }
    ∷ record { id = pos 2; space = codes "jobs"; payload = job (pos 2) (codes "42") }
    ∷ []

abbrev one_job : Rows
one_job = record { id = pos 2; space = codes "jobs"; payload = job (pos 2) (codes "42") } ∷ []

abbrev any_job : Template
any_job = record {
  fields =
      record { kind = field_actual; type = type_string; name = []; value = string (codes "job") }
      ∷ record { kind = field_formal; type = type_int; name = codes "id"; value = nil }
      ∷ [];
}

abbrev found_job : ℤ → Found
found_job n = (
  record {
    fields =
        record { type = type_string; value = string (codes "job") }
        ∷ record { type = type_int; value = int64 n }
        ∷ [];
  },
  (codes "id", int64 n) ∷ [],
)

consume_first :
    consume_once rows (pos 64) (codes "jobs") any_job two_jobs
    ≡ ok (some (found_job (pos 7)), one_job)
unfolding consume_once lock_candidates_for_consume build_candidate_query query_candidates
    decode_rows decode_tuple normalize_tuple normalize_value normalize_int parse_int first_match
    match equal_value any_eq lookup delete_tuple int_eq text_eq unmarshal format_nat
consume_first = refl

consume_second :
    consume_once rows (pos 64) (codes "jobs") any_job one_job ≡ ok (some (found_job (pos 42)), [])
unfolding consume_once lock_candidates_for_consume build_candidate_query query_candidates
    decode_rows decode_tuple normalize_tuple normalize_value normalize_int parse_int first_match
    match equal_value any_eq lookup delete_tuple int_eq text_eq unmarshal format_nat
consume_second = refl

abbrev stored_jobs : List StoredTuple
stored_jobs =
    record { id = pos 1; space = codes "jobs"; tuple = (found_job (pos 7)).0 }
    ∷ record { id = pos 2; space = codes "jobs"; tuple = (found_job (pos 42)).0 }
    ∷ []

abbrev nobody : Register
nobody = record { next_waiter_id = 0; active_waiters = [] }

abbrev empty_world : World Rows
empty_world = record { db = []; waiters = nobody }

abbrev filled_world : World Rows
filled_world = record { db = two_jobs; waiters = nobody }

abbrev events : List (Wake Rows)
events = notified empty_world ∷ notified filled_world ∷ deadline empty_world ∷ []

read-ReadAnswered_example :
    ReadAnswered (codes "jobs") any_job (pos 1000000000) (subscribed false) true false (
      read rows
        (pos 64)
        true
        (codes "jobs")
        any_job
        (pos 1000000000)
        0
        (subscribed false)
        events
        empty_world)
read-ReadAnswered_example =
    read-ReadAnswered rows (pos 64) true (codes "jobs") any_job (pos 1000000000) 0
      (subscribed false) events empty_world

read-Registered_example : Registered nobody events (
    read rows
      (pos 64)
      true
      (codes "jobs")
      any_job
      (pos 1000000000)
      0
      (subscribed true)
      events
      empty_world)
read-Registered_example =
    read-Registered rows (pos 64) true (codes "jobs") any_job (pos 1000000000) 0 (subscribed true)
      events empty_world

abbrev never_ended : Service.Error → Bool
never_ended e = false

any_job-HasValues : HasValues any_job.fields
unfolding text_eq
any_job-HasValues = (λ a. refl, (λ a. cc, tt))

query_of_jobs :
    (sql : Text) × (build_candidate_query (codes "jobs") any_job (pos 0) true
      ≡ ok (
        sql,
        int (pos 0)
            ∷ string type_string
            ∷ string (codes "job")
            ∷ string (codes "jobs")
            ∷ int (pos 2)
            ∷ int (pos 64)
            ∷ [],
      ))
unfolding build_candidate_query text_eq format_nat not_positive
query_of_jobs = (_, refl)

build_candidate_query-print_select_example :
    let s = candidate_select (codes "jobs") any_job (pos 0) true in
    (query_of_jobs.0 ≡ print_select s)
    × ((int (pos 0)
          ∷ string type_string
          ∷ string (codes "job")
          ∷ string (codes "jobs")
          ∷ int (pos 2)
          ∷ int (pos 64)
          ∷ [])
        ≡ select_args s)
build_candidate_query-print_select_example =
    build_candidate_query-print_select (codes "jobs") any_job (pos 0) true query_of_jobs.0
      (int (pos 0)
        ∷ string type_string
        ∷ string (codes "job")
        ∷ string (codes "jobs")
        ∷ int (pos 2)
        ∷ int (pos 64)
        ∷ [])
      any_job-HasValues query_of_jobs.1

schema_of_lem_example :
    let r = schema_of [] (codes "tuples" ∷ []) [] in
    (contains (codes "tuple_fields") r.missing_tables ≡ (
      contains (codes "tuple_fields") required_schema_tables
      && not (contains (codes "tuple_fields") (codes "tuples" ∷ []))))
    × (contains (codes "tuple_fields") r.missing_indexes ≡ (
        contains (codes "tuple_fields") required_schema_indexes
        && not (contains (codes "tuple_fields") [])))
schema_of_lem_example = schema_of_lem [] (codes "tuples" ∷ []) [] (codes "tuple_fields")

deleted_job :
    tuplespace.Service.Admin.delete_tuple rows (pos 1) two_jobs
    ≡ ok (record { tuple_id = pos 1; deleted = true }, one_job)
unfolding tuplespace.Service.Admin.delete_tuple tuplespace.Service.Admin.check_tuple_id
    delete_tuple_by_id int_eq not_positive
deleted_job = refl

-- Two reads that started at the same time, and one that started before them.
abbrev three_waiters : Register
three_waiters =
    (register_waiter (codes "c") any_job 0 true 4
      (register_waiter (codes "b") any_job 0 false 5
        (register_waiter (codes "a") any_job 0 true 5 nobody).0).0).0

waiters_snapshot-InOrder_example :
    InOrder (waiters_snapshot three_waiters)
    × ((id : ℕ)
        → occurrences id (waiters_snapshot three_waiters)
          ≡ occurrences id three_waiters.active_waiters)
waiters_snapshot-InOrder_example = waiters_snapshot-InOrder three_waiters

decode_tuple-marshal_example :
    (p : Payload) × (marshal (found_job (pos 7)).0 ≡ some p)
    × (decode_tuple p ≡ ok (found_job (pos 7)).0)
decode_tuple-marshal_example =
    decode_tuple-marshal (found_job (pos 7)).0 ((refl, tt), ((refl, omega arith), tt))
