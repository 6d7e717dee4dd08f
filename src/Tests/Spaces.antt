-- ===== src/Tests/Spaces.antt =====
-- The service as a tuple space, on the small tables: internal/service over internal/store.
use tuplespace.Base.{
  ℕ, ◌≡◌, ◌≤◌, ◌+◌, refl, true, false, none, some, List, [], ◌∷◌, Text, codes, ℤ, pos, ok, text_eq,
  int_eq, not_positive, length, arith,
}
use tuplespace.Types.{Tuple, int64, type_string, type_int}
use tuplespace.Types.{normalize_tuple, normalize_value, normalize_int, is_supported_value_type}
use tuplespace.Strconv.{parse_int, format_int, format_nat}
use tuplespace.Validation.{validate_space, validate_tuple, matches_space_pattern}
use tuplespace.Match.{match, match_field, equal_value, any_eq, lookup}
use tuplespace.Store.{
  StoredTuple, insert_tuple, columns, find_candidates, lock_candidates_for_consume,
  query_candidates, decode_rows, decode_tuple, delete_tuple,
}
use tuplespace.Store.Query.{build_candidate_query, effective_limit}
use tuplespace.Store.Codec.{text, number, marshal, unmarshal}
use tuplespace.Relational.{TupleRow, delete_row}
use tuplespace.Relational.Select.{column_holds, evaluate, ways, selects, joins_row}
use tuplespace.Relational.{Tables}
use tuplespace.Relational.Represents.{Represents}
use tuplespace.Store.Query.Printed.{HasValues}
use tuplespace.Service.Refinement.{WithinLimit, limit_of}
use tuplespace.Service.Refinement.Steps.{read_once-oldest, consume_once-take_away, out-put}
use tuplespace.Service.Refinement.Reads.{ReadEnds, read_loop-ReadEnds}
use tuplespace.Service.Waiters.{Register}
use tuplespace.Service.Blocking.{Wake, notified, Request, read_loop}
use tuplespace.Service.Refinement.Runs.{run-May}
use tuplespace.Service.{out, consume_once, read_once, attempt, Found, first_match}
use tuplespace.Space.{
  Contents, IsNew, Distinct, Event, wrote, looked, May, Runs, answer, oldest, take_away, put,
}
use tuplespace.Tests.Tables.{tables, tables-Relational}
use tuplespace.Tests.Tuples.{sent, stored, wanted, validate_wanted}

abbrev no_sha1 : Text → List ℕ
no_sha1 s = []

abbrev empty : Tables
empty = record { tuples = []; fields = [] }

abbrev one_stored : Tables
one_stored = record {
  tuples =
      record {
        id = pos 1;
        space = codes "jobs";
        arity = 2;
        payload =
            record { type = type_string; value = text (codes "job") }
            ∷ record { type = type_int; value = number (codes "42") }
            ∷ [];
      }
      ∷ [];
  fields =
      record {
        tuple_id = pos 1;
        pos = 0;
        type = type_string;
        columns = record { text_val = some (codes "job"); int_val = none; bool_val = none };
      }
      ∷ record {
        tuple_id = pos 1;
        pos = 1;
        type = type_int;
        columns = record { text_val = none; int_val = some (pos 42); bool_val = none };
      }
      ∷ [];
}

out_test : out tables no_sha1 (codes "jobs") sent empty ≡ ok one_stored
unfolding out validate_space matches_space_pattern validate_tuple normalize_tuple normalize_value
    normalize_int text_eq is_supported_value_type parse_int insert_tuple marshal columns format_int
out_test = refl

abbrev found_sent : Found
found_sent = (stored, (codes "id", int64 (pos 42)) ∷ [])

read_test :
    attempt tables (pos 64) false (codes "jobs") wanted one_stored
    ≡ ok (some found_sent, one_stored)
unfolding attempt read_once find_candidates build_candidate_query query_candidates decode_rows
    decode_tuple normalize_tuple normalize_value normalize_int parse_int first_match match
    match_field equal_value any_eq lookup int_eq text_eq unmarshal format_nat evaluate ways selects
    joins_row not_positive is_supported_value_type
read_test = refl

consume_test :
    attempt tables (pos 64) true (codes "jobs") wanted one_stored ≡ ok (some found_sent, empty)
unfolding attempt consume_once lock_candidates_for_consume build_candidate_query query_candidates
    decode_rows decode_tuple normalize_tuple normalize_value normalize_int parse_int first_match
    match match_field equal_value any_eq lookup delete_tuple delete_row int_eq text_eq unmarshal
    format_nat evaluate ways selects joins_row not_positive is_supported_value_type
consume_test = refl

abbrev one : Contents
one = record { id = pos 1; space = codes "jobs"; tuple = stored } ∷ []

one-Represents : Represents one one_stored
unfolding marshal format_int int_eq
one-Represents = ((refl, refl, refl, refl, ((refl, tt), ((refl, omega arith), tt)), refl), tt)

out-put_example :
    (id : ℤ) × (v : Tuple) × (validate_tuple sent ≡ ok v)
    × IsNew id []
    × Represents (put id (codes "jobs") v []) one_stored
unfolding tables-Relational
out-put_example =
    out-put tables tables-Relational no_sha1 (codes "jobs") sent empty one_stored [] (tt, (tt, tt))
      tt out_test

pub wanted-HasValues : HasValues wanted.fields
unfolding text_eq
wanted-HasValues = (λ a. refl, (λ a. cc, tt))

few : WithinLimit (pos 64) (codes "jobs") wanted one
unfolding not_positive text_eq column_holds
few = omega arith

read_once_test : read_once tables (pos 64) (codes "jobs") wanted one_stored ≡ ok (some found_sent)
unfolding read_once find_candidates build_candidate_query query_candidates decode_rows decode_tuple
    normalize_tuple normalize_value normalize_int parse_int first_match match match_field
    equal_value any_eq lookup int_eq text_eq unmarshal format_nat evaluate ways selects joins_row
    not_positive is_supported_value_type
read_once_test = refl

read_once-oldest_example : some found_sent ≡ answer (oldest (codes "jobs") wanted one)
unfolding tables-Relational
read_once-oldest_example =
    read_once-oldest tables tables-Relational (pos 64) (codes "jobs") wanted one_stored one
      (some found_sent) wanted-HasValues one-Represents few read_once_test

consume_once_test :
    consume_once tables (pos 64) (codes "jobs") wanted one_stored ≡ ok (some found_sent, empty)
unfolding attempt
consume_once_test = consume_test

consume_once-take_away_example :
    (some found_sent ≡ answer (oldest (codes "jobs") wanted one))
    × Represents (take_away (oldest (codes "jobs") wanted one) one) empty
unfolding tables-Relational
consume_once-take_away_example =
    consume_once-take_away tables tables-Relational (pos 64) (codes "jobs") wanted one_stored empty
      one (some found_sent) wanted-HasValues one-Represents few consume_once_test

abbrev calls : List Event
calls = wrote (codes "jobs") sent ∷ looked true (codes "jobs") wanted (some found_sent) ∷ []

bounded : length {A = StoredTuple} [] + 1 ≤ limit_of (effective_limit (pos 64))
unfolding not_positive
bounded = omega arith

run-May_example :
    (s' : Contents) × Runs May calls [] s' × Represents s' empty × Distinct s' × (length s' + 1 ≡ 1)
unfolding not_positive tables-Relational
run-May_example =
    run-May tables no_sha1 (pos 64) tables-Relational calls empty empty []
      ((tt, (tt, tt)), (tt, tt)) tt bounded tt
      (one_stored, out_test, (empty, (wanted, validate_wanted, consume_test), refl))

abbrev tuples_in : List TupleRow → Contents
tuples_in [] = []
tuples_in (r ∷ rs) = one

abbrev contents : Tables → Contents
contents db = tuples_in db.tuples

abbrev blocking : Request
blocking = record {
  destructive = true;
  space = codes "jobs";
  template = wanted;
  wait = 20;
  now = 5;
}

abbrev nobody : Register
nobody = record { next_waiter_id = 0; active_waiters = [] }

abbrev later : List (Wake Tables)
later = notified (record { db = one_stored; waiters = nobody }) ∷ []

none_yet : WithinLimit (pos 64) (codes "jobs") wanted []
unfolding not_positive
none_yet = omega arith

read_loop-ReadEnds_example :
    ReadEnds tables tables-Relational
      (pos 64)
      blocking
      contents
      later
      (record { db = empty; waiters = nobody })
      (read_loop tables (pos 64) blocking later none (record { db = empty; waiters = nobody }))
unfolding tables-Relational
read_loop-ReadEnds_example =
    read_loop-ReadEnds tables tables-Relational (pos 64) blocking contents later none
      (record { db = empty; waiters = nobody }) wanted-HasValues
      ((tt, none_yet), (one-Represents, few))
