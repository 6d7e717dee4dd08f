-- ===== src/Http/Responses.antt =====
-- The handlers and the responses that they write (internal/api/httpapi/handlers.go,
-- admin_handlers.go, errors.go). A body that was decoded is an argument, `none` if it could not be.
pub mod Reads
pub mod Statuses
use tuplespace.Base.{
  ℕ, Bool, true, false, not, ◌||◌, Option, none, some, List, [], ◌∷◌, Text, codes, length,
  if◌then◌else◌, ℤ, Result, ok, err,
}
use tuplespace.Types.{Tuple, Template}
use tuplespace.Validation.{new_error, confirm_flag}
use tuplespace.Store.Database.{Postgres, SpaceSummary}
use tuplespace.Store.Filters.{TupleFilter}
use tuplespace.Store.Admin.{TupleRecord}
use tuplespace.Notify.{State}
use tuplespace.Service.{Error, not_found, timeout, canceled, invalid, Found, out}
use tuplespace.Service.Admin.{
  StatsSnapshot, DeleteResult, NotifyTestResult, spaces, dump, stats, schema, get_tuple,
  delete_tuple, purge, notify_test,
}
use tuplespace.Service.Schema.{SchemaSnapshot}
use tuplespace.Service.Settings.{ConfigSnapshot}
use tuplespace.Service.Waiters.{Register, WaiterInfo, waiters_snapshot}
use tuplespace.Service.Blocking.{
  World, Wake, Outcome, returned, waiting, hung, NotifierAnswer, read,
}
use tuplespace.Http.Durations.{duration_of_ms}

-- What goes wrong in a handler: the body, or the service.
pub data Failure : Type 0 where
  body_failed : Failure
  refused : Error → Failure

pub record ErrorPayload : Type 0 where
  pub code : Text
  pub cause : Failure

pub data Body : Type 0 where
  failure_body : ErrorPayload → Body
  out_body : Text → ℕ → Body
  read_body : Found → Body
  spaces_body : List SpaceSummary → Body
  tuples_body : List TupleRecord → Body
  stats_body : StatsSnapshot → Body
  schema_body : SchemaSnapshot → Body
  config_body : ConfigSnapshot → Body
  waiters_body : List WaiterInfo → Body
  tuple_body : TupleRecord → Body
  delete_body : DeleteResult → Body
  purge_body : ℕ → Body
  notify_test_body : NotifyTestResult → Body

pub record Response : Type 0 where
  pub status : ℕ
  pub body : Body

-- `ended` says whether an error has the end of the request's context among its causes (errors.Is).
module _ (ended : Error → Bool) where
  internal_or_timeout : Error → ℕ × Text
  internal_or_timeout e = if ended e then (408, codes "timeout") else (500, codes "internal")

  unfoldable pub map_error : Failure → ℕ × Text
  unfolding internal_or_timeout
  map_error body_failed = (500, codes "internal")
  map_error (refused (invalid e)) = (400, e.code)
  map_error (refused not_found) = (404, codes "not_found")
  map_error (refused timeout) = (408, codes "timeout")
  map_error (refused canceled) = (408, codes "timeout")
  map_error (refused e) = internal_or_timeout e

  unfoldable pub write_mapped_error : Failure → Response
  write_mapped_error failure =
      let (status, code) = map_error failure in
      record { status = status; body = failure_body (record { code = code; cause = failure }) }

  -- writeJSON with StatusOK, or the error
  answer : {A : Type 0} → (A → Body) → Result Error A → Response
  answer body (ok a) = record { status = 200; body = body a }
  answer body (err e) = write_mapped_error (refused e)

  -- The same for a call that changes the contents of the database.
  change : {A D : Type 0} → (A → Response) → D → Result Error (A × D) → Response × D
  change respond db (ok (a, db')) = (respond a, db')
  change respond db (err e) = (write_mapped_error (refused e), db)

  out_response : {D : Type 0} → Text → Tuple → D → Result Error D → Response × D
  out_response space tuple db (ok db') =
      (record { status = 201; body = out_body space (length tuple.fields) }, db')
  out_response space tuple db (err e) = (write_mapped_error (refused e), db)

  -- A response comes once the read has returned.
  read_response : {D : Type 0} → Outcome Found D → Option (Response × World D)
  unfolding answer
  read_response (returned r w) = some (answer read_body r, w)
  read_response (waiting id w) = none
  read_response (hung w) = none

  found_response : Option TupleRecord → Response
  found_response none = write_mapped_error (refused not_found)
  found_response (some t) = record { status = 200; body = tuple_body t }

  get_response : Result Error (Option TupleRecord) → Response
  unfolding found_response
  get_response (ok found) = found_response found
  get_response (err e) = write_mapped_error (refused e)

  delete_response : DeleteResult → Response
  delete_response r =
      if not r.deleted
      then write_mapped_error (refused not_found)
      else record { status = 200; body = delete_body r }

  purge_response : ℕ → Response
  purge_response n = record { status = 200; body = purge_body n }

  module _ (pg : Postgres) where
    open pg use {Db}

    unfoldable pub handle_out : (Text → List ℕ) → Option Tuple → Text → Db → Response × Db
    unfolding out_response
    handle_out sha1 none space db = (write_mapped_error body_failed, db)
    handle_out sha1 (some tuple) space db = out_response space tuple db (out pg sha1 space tuple db)

    -- With the template and `wait_ms` of the body.
    unfoldable pub handle_read :
        ℤ
        → Bool
        → Option (Template × ℤ)
        → Text
        → ℕ
        → NotifierAnswer
        → List (Wake Db)
        → World Db
        → Option (Response × World Db)
    unfolding read_response
    handle_read limit destructive none space now subscription events w =
        some (write_mapped_error body_failed, w)
    handle_read limit destructive (some (template, wait_ms)) space now subscription events w =
        read_response (
          read pg limit destructive space template (duration_of_ms wait_ms) now subscription events
            w)

    unfoldable pub handle_admin_spaces : Db → Response
    unfolding answer
    handle_admin_spaces db = answer spaces_body (spaces pg db)

    -- `handleTupleListRequest`; Peek and Export are Dump.
    unfoldable pub handle_tuple_list_request : Option TupleFilter → Db → Response
    unfolding answer
    handle_tuple_list_request none db = write_mapped_error body_failed
    handle_tuple_list_request (some filter) db = answer tuples_body (dump pg filter db)

    unfoldable pub handle_admin_stats : ℕ → ℕ → ℤ → State → Register → Db → Response
    unfolding answer
    handle_admin_stats started_at now limit st register db =
        answer stats_body (stats pg started_at now limit st register db)

    unfoldable pub handle_admin_schema : List Text → Db → Response
    unfolding answer
    handle_admin_schema files db = answer schema_body (schema pg files db)

    unfoldable pub handle_admin_tuple_get : ℤ → Db → Response
    unfolding get_response
    handle_admin_tuple_get id db = get_response (get_tuple pg id db)

    unfoldable pub handle_admin_tuple_delete : ℤ → Db → Response × Db
    unfolding change delete_response
    handle_admin_tuple_delete id db = change delete_response db (delete_tuple pg id db)

    -- With the filter and the flag of the body.
    unfoldable pub handle_admin_purge : Option (TupleFilter × Bool) → Db → Response × Db
    unfolding change purge_response
    handle_admin_purge none db = (write_mapped_error body_failed, db)
    handle_admin_purge (some (filter, confirm)) db =
        let result = change purge_response db (purge pg filter db) in
        if not confirm
        then (
          write_mapped_error
              (refused (invalid (new_error (codes "confirm_required") confirm_flag))),
          db,
        )
        else result

  -- `Config` of the service gives the snapshot that it was made with.
  unfoldable pub handle_admin_config : ConfigSnapshot → Response
  unfolding answer
  handle_admin_config snapshot = answer config_body (ok snapshot)

  unfoldable pub handle_admin_waiters : Register → Response
  unfolding answer
  handle_admin_waiters register = answer waiters_body (ok (waiters_snapshot register))

  unfoldable pub handle_admin_notify_test : (Text → List ℕ) → Option Text → Bool → State → Response
  unfolding answer
  handle_admin_notify_test sha1 none sent st = write_mapped_error body_failed
  handle_admin_notify_test sha1 (some space) sent st =
      answer notify_test_body (notify_test sha1 space sent st)
