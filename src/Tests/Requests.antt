-- ===== src/Tests/Requests.antt =====
-- Requests, the client and the settings: internal/api/httpapi, internal/client, internal/config.
use tuplespace.Base.{
  ℕ, ◌+◌, ◌≤◌, ◌≡◌, refl, ◌⊎◌, Bool, true, false, none, some, Option, List, [], ◌∷◌, Text, codes, ℤ,
  pos, int_eq, not_positive, ok, arith,
}
use tuplespace.Strconv.{parse_int}
use tuplespace.Validation.{validate_space}
use tuplespace.Types.{Tuple, string, type_string}
use tuplespace.Service.{Error, out}
use tuplespace.Service.Admin
use tuplespace.Service.Once.{has_id, without_id}
use tuplespace.Store.Filters.{TupleFilter}
use tuplespace.Store.Admin.{delete_tuple_by_id}
use tuplespace.Service.Writes.{OutSound, out-OutSound}
use tuplespace.Http.{
  route_spaces, route_admin, handle_out, handle_rd, handle_in, handle_tuple_get,
  handle_tuple_delete,
}
use tuplespace.Http.Paths.{space_path, tuple_path, route_spaces-space_path, route_admin-tuple_path}
use tuplespace.Http.Durations.{duration_of_ms}
use tuplespace.Http.Responses
use tuplespace.Http.Responses.{handle_admin_tuple_delete, handle_admin_purge}
use tuplespace.Http.Responses.Statuses.{
  handle_out_lem, handle_admin_purge_unconfirmed, handle_admin_tuple_delete_lem,
}
use tuplespace.Client.{timeout_for_wait_ms, blocking_request_buffer}
use tuplespace.Client.Timeouts.{timeout_for_wait_ms-duration_of_ms}
use tuplespace.Config.{Config, load_from_env, validate, defaults_from_env}
use tuplespace.Tests.Database.{rows, rows-Faithful, Rows}

accepted_space : validate_space (codes "jobs") ≡ ok tt
unfolding validate_space
accepted_space = refl

route_spaces-space_path_example :
    (route_spaces (codes "POST") (space_path (codes "jobs") (codes "out"))
      ≡ handle_out (codes "jobs"))
    × (route_spaces (codes "POST") (space_path (codes "jobs") (codes "rd"))
        ≡ handle_rd (codes "jobs"))
    × (route_spaces (codes "POST") (space_path (codes "jobs") (codes "in"))
        ≡ handle_in (codes "jobs"))
route_spaces-space_path_example = route_spaces-space_path (codes "jobs") accepted_space

route_admin-tuple_path_example :
    (route_admin (codes "GET") (tuple_path (pos 7)) ≡ handle_tuple_get (pos 7))
    × (route_admin (codes "DELETE") (tuple_path (pos 7)) ≡ handle_tuple_delete (pos 7))
route_admin-tuple_path_example = route_admin-tuple_path (pos 7) (omega arith)

timeout_for_wait_ms-duration_of_ms_example :
    (wait t : ℕ) × (duration_of_ms (pos 20000) ≡ pos wait)
    × (timeout_for_wait_ms (pos 20000) ≡ pos t)
    × (wait + blocking_request_buffer ≤ t)
timeout_for_wait_ms-duration_of_ms_example = timeout_for_wait_ms-duration_of_ms 20000 (omega arith)

abbrev environment : Text → Text
environment (c ∷ s) = codes "5"
environment [] = []

abbrev no_duration : Text → Option ℤ
no_duration s = some (pos 5)

abbrev loaded : Config
loaded = record {
  http_listen_addr = codes "5";
  database_url = codes "5";
  candidate_limit = pos 5;
  shutdown_grace = pos 5;
}

loads : load_from_env environment no_duration ≡ ok loaded
unfolding load_from_env parse_int validate defaults_from_env not_positive
loads = refl

abbrev never_ended : Error → Bool
never_ended e = false

abbrev greeting : Tuple
greeting = record { fields = record { type = type_string; value = string (codes "hi") } ∷ [] }

abbrev no_sha1 : Text → List ℕ
no_sha1 s = []

handle_out_lem_example :
    let (r, db') =
      tuplespace.Http.Responses.handle_out never_ended rows no_sha1
        (some greeting)
        (codes "jobs")
        [] in
    ((r.status ≡ 201) × (out rows no_sha1 (codes "jobs") greeting [] ≡ ok db'))
    ⊎ ((400 ≤ r.status) × (db' ≡ []))
handle_out_lem_example = handle_out_lem never_ended rows no_sha1 greeting (codes "jobs") []

abbrev every_tuple : TupleFilter
every_tuple = record {
  space = [];
  created_before = none;
  created_after = none;
  limit = pos 0;
  offset = pos 0;
}

handle_admin_purge_unconfirmed_example :
    let (r, db') = handle_admin_purge never_ended rows (some (every_tuple, false)) [] in
    (r.status ≡ 400) × (db' ≡ [])
handle_admin_purge_unconfirmed_example =
    handle_admin_purge_unconfirmed never_ended rows every_tuple []

abbrev three : Rows
three = record { id = pos 3; space = codes "jobs"; payload = [] } ∷ []

deleted_three : (handle_admin_tuple_delete never_ended rows (pos 3) three).0.status ≡ 200
unfolding handle_admin_tuple_delete tuplespace.Service.Admin.delete_tuple
    tuplespace.Service.Admin.check_tuple_id delete_tuple_by_id int_eq not_positive
deleted_three = refl

handle_admin_tuple_delete_lem_example :
    (has_id (pos 3) (rows-Faithful.keys three) ≡ true)
    × (rows-Faithful.keys (handle_admin_tuple_delete never_ended rows (pos 3) three).1
        ≡ without_id (pos 3) (rows-Faithful.keys three))
handle_admin_tuple_delete_lem_example =
    handle_admin_tuple_delete_lem never_ended rows rows-Faithful (pos 3) three deleted_three

out-OutSound_example : OutSound (out rows no_sha1 (codes "jobs") greeting [])
out-OutSound_example = out-OutSound rows no_sha1 (codes "jobs") greeting []
