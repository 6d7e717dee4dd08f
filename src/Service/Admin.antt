-- ===== src/Service/Admin.antt =====
-- The administration of the service (internal/service/admin.go).
use tuplespace.Base.{
  ℕ, is_negative, or_fail, ◌-◌, Bool, false, not, Option, none, some, List, [], Text, codes, ltb,
  length, ℤ, pos, not_positive, Result, ok, ◌>>=◌, ◌>>◌, wrap, fail_if, if◌then◌else◌, is_empty,
}
use tuplespace.Base.Maps.{Map, get}
use tuplespace.Validation
use tuplespace.Validation.{
  Message, validate_space, new_error, tuple_id_must_be_positive, limit_negative, offset_negative,
  created_range,
}
use tuplespace.Store.Database.{Postgres, SpaceSummary}
use tuplespace.Store.Filters.{TupleFilter}
use tuplespace.Store.Admin.{
  TupleRecord, list_spaces, list_tuples, count_tuples, get_tuple_by_id, delete_tuple_by_id,
  delete_tuples,
}
use tuplespace.Notify
use tuplespace.Notify.{State, snapshot, or_zero}
use tuplespace.Notify.Channel.{channel_name}
use tuplespace.Service.{
  Error, begin_failed, commit_failed, notify_failed, schema_failed, invalid, store,
}
use tuplespace.Service.Schema.{SchemaSnapshot, schema_of}
use tuplespace.Service.Waiters.{Register, waiters_snapshot, milliseconds}

pub record StatsSnapshot : Type 0 where
  pub started_at : ℕ
  pub uptime_ms : ℕ
  pub space_count : ℕ
  pub tuple_count : ℕ
  pub waiter_count : ℕ
  pub notifier_channels : ℕ
  pub notifier_subscribers : ℕ
  pub notifier_by_channel : Map ℕ
  pub candidate_limit : ℤ

pub record DeleteResult : Type 0 where
  pub tuple_id : ℤ
  pub deleted : Bool

pub record NotifyTestResult : Type 0 where
  pub space : Text
  pub channel : Text
  pub subscriber_count : ℕ
  pub channel_subscriber_count : ℕ
  pub notifier_channels : ℕ
  pub notifier_by_channel : Map ℕ

-- `!filter.CreatedAfter.Before(*filter.CreatedBefore)`, if both are there
range_is_empty : Option ℕ → Option ℕ → Bool
range_is_empty (some before) (some after) = not (ltb after before)
range_is_empty _ _ = false

unfoldable pub validate_tuple_filter : TupleFilter → Result Validation.Error (Unit {0})
unfolding range_is_empty
validate_tuple_filter filter = do
  if is_empty filter.space then ok tt else validate_space filter.space
  fail_if (is_negative filter.limit) (new_error (codes "invalid_filter") limit_negative)
  fail_if (is_negative filter.offset) (new_error (codes "invalid_filter") offset_negative)
  fail_if (range_is_empty filter.created_before filter.created_after)
      (new_error (codes "invalid_filter") created_range)

unfoldable pub check_tuple_id : ℤ → Result Error (Unit {0})
check_tuple_id id =
    wrap invalid
      (fail_if (not_positive id) (new_error (codes "invalid_tuple_id") tuple_id_must_be_positive))

module _ (pg : Postgres) where
  open pg use {Db, begin, commit, query_tables, query_indexes}

  unfoldable pub spaces : Db → Result Error (List SpaceSummary)
  spaces db = wrap store (list_spaces pg db)

  unfoldable pub dump : TupleFilter → Db → Result Error (List TupleRecord)
  dump filter db = do
    wrap invalid (validate_tuple_filter filter)
    wrap store (list_tuples pg filter db)

  unfoldable pub peek : TupleFilter → Db → Result Error (List TupleRecord)
  peek = dump

  unfoldable pub export : TupleFilter → Db → Result Error (List TupleRecord)
  export = dump

  -- `st` is the state of the notifier, whose loop runs; it does not return once the loop has ended.
  unfoldable pub stats : ℕ → ℕ → ℤ → Notify.State → Register → Db → Result Error StatsSnapshot
  stats started_at now limit st register db = do
    space_summaries ← wrap store (list_spaces pg db)
    tuple_count ← wrap store (
        count_tuples pg
          (record {
            space = [];
            created_before = none;
            created_after = none;
            limit = pos 0;
            offset = pos 0;
          })
          db)
    let seen = snapshot st
    ok (record {
      started_at = started_at;
      uptime_ms = milliseconds (now - started_at);
      space_count = length space_summaries;
      tuple_count = tuple_count;
      waiter_count = length (waiters_snapshot register);
      notifier_channels = seen.channel_count;
      notifier_subscribers = seen.subscriber_count;
      notifier_by_channel = seen.channels;
      candidate_limit = limit;
    })

  unfoldable pub schema : List Text → Db → Result Error SchemaSnapshot
  schema migration_files db = do
    tables ← or_fail schema_failed (query_tables db)
    indexes ← or_fail schema_failed (query_indexes db)
    ok (schema_of migration_files tables indexes)

  unfoldable pub get_tuple : ℤ → Db → Result Error (Option TupleRecord)
  unfolding check_tuple_id
  get_tuple id db = do check_tuple_id id; wrap store (get_tuple_by_id pg id db)

  unfoldable pub delete_tuple : ℤ → Db → Result Error (DeleteResult × Db)
  unfolding check_tuple_id
  delete_tuple id db = do
    check_tuple_id id
    tx ← or_fail begin_failed (begin db)
    (deleted, tx') ← wrap store (delete_tuple_by_id pg id tx)
    db' ← or_fail commit_failed (commit db tx')
    ok (record { tuple_id = id; deleted = deleted }, db')

  -- With the number of rows that are gone.
  unfoldable pub purge : TupleFilter → Db → Result Error (ℕ × Db)
  purge filter db = do
    wrap invalid (validate_tuple_filter filter)
    tx ← or_fail begin_failed (begin db)
    (count, tx') ← wrap store (delete_tuples pg filter tx)
    db' ← or_fail commit_failed (commit db tx')
    ok (count, db')

-- `sent` says whether `pg_notify` on the notifier's connection succeeds; `st` is its state then.
unfoldable pub notify_test :
    (Text → List ℕ) → Text → Bool → Notify.State → Result Error NotifyTestResult
notify_test sha1 space sent st = do
  wrap invalid (validate_space space)
  fail_if (not sent) notify_failed
  let seen = snapshot st
  let channel = channel_name sha1 space
  ok (record {
    space = space;
    channel = channel;
    subscriber_count = seen.subscriber_count;
    channel_subscriber_count = or_zero (get channel seen.channels);
    notifier_channels = seen.channel_count;
    notifier_by_channel = seen.channels;
  })
