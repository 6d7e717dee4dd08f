-- ===== src/Tests/Commands.antt =====
-- The commands of the client and its requests: cmd/tuplespacectl, internal/client.
use tuplespace.Base.{
  ℕ, zero, suc, ◌+◌, ◌≡◌, refl, ap, true, false, Bool, Option, none, some, List, [], ◌∷◌, ◌++◌,
  Text, codes, Result, ok, err,
}
use tuplespace.Types.{Tuple}
use tuplespace.Dsl.{parse_tuple_spec}
use tuplespace.Validation.{validate_space, matches_space_pattern}
use tuplespace.Service
use tuplespace.Client.Requests
use tuplespace.Client.Requests.{Http, HttpResponse, Decoders, OutResponse, RequestBody, out_request}
use tuplespace.Client.Requests.Served.{Wire, served, sent_back, OutAnswer, out-served}
use tuplespace.Http.{route_spaces}
use tuplespace.Http.Responses.{Response, Body, out_body, failure_body}
use tuplespace.Commands.Inputs.{load_tuple, load_tuple_inputs}
use tuplespace.Commands.Inputs.Chosen.{Chosen, load_tuple_inputs-Chosen}
use tuplespace.Commands.Outputs.{Row, out_row, Session}
use tuplespace.Commands.Tuples.{send_each}
use tuplespace.Commands.Tuples.Sent.{Sent, send_each-Sent}
use tuplespace.Tests.Database.{rows, Rows}
use tuplespace.Tests.Tuples.{sent, stored}
use tuplespace.Tests.Specs.{parsed, parse_tuple_spec_test}

abbrev no_file : Text → Option Text
no_file path = none

abbrev no_tuple : Text → Option Tuple
no_tuple body = none

abbrev spec : Text
spec = codes "(\"job with spaces\",42,true,worker-1,\"123\")"

load_spec : load_tuple_inputs no_file no_tuple [] spec [] ≡ ok (parsed ∷ [])
unfolding load_tuple_inputs
load_spec = rw parse_tuple_spec_test refl

load_tuple_inputs-Chosen_example :
    Chosen (load_tuple no_file no_tuple) (λ s t. parse_tuple_spec s ≡ ok t) [] spec [] (parsed ∷ [])
load_tuple_inputs-Chosen_example =
    load_tuple_inputs-Chosen no_file no_tuple [] spec [] (parsed ∷ []) load_spec

-- A server that counts the requests, and answers no more than two.
abbrev count : Text → ℕ → Result Requests.Error OutResponse × ℕ
count space (suc (suc zero)) = (err Requests.perform_failed, 2)
count space n = (ok (record { ok = true; space = space; arity = 1 }), n + 1)

abbrev keep_row : Row → List Row → Option (List Row)
keep_row row rows = some (rows ++ row ∷ [])

abbrev nobody : Session ℕ (List Row)
nobody = record { server = 0; rows = [] }

abbrev three : List Text
three = codes "a" ∷ codes "b" ∷ codes "c" ∷ []

send_each-Sent_example :
    Sent keep_row count out_row 0 three nobody (send_each keep_row count out_row 0 three nobody)
send_each-Sent_example = send_each-Sent keep_row count out_row 0 three nobody

abbrev never_ended : Service.Error → Bool
never_ended e = false

abbrev no_sha1 : Text → List ℕ
no_sha1 s = []

-- A code for the two bodies that `Out` is answered with.
abbrev encode : Body → Text
encode (out_body space arity) = 1 ∷ arity ∷ space
encode (failure_body p) = 0 ∷ p.code
encode _ = []

abbrev decode_out : Text → Option OutResponse
decode_out (tag ∷ arity ∷ space) = some (record { ok = true; space = space; arity = arity })
decode_out _ = none

abbrev decode_failure : Text → Option (Text × Text)
decode_failure (tag ∷ code) = some (code, codes "failed")
decode_failure _ = none

abbrev respond : Option (Response × Rows) → Rows → Option HttpResponse × Rows
respond none db = (none, db)
respond (some answer) db = sent_back rows no_sha1 never_ended encode answer

abbrev wired : Http Rows
wired = record {
  base_url = [];
  marshal = λ request. some (codes "{}");
  can_build = λ method url. true;
  perform = λ method url body db.
      respond (served rows no_sha1 never_ended (route_spaces method url) (some stored) db) db;
  decode_envelope = decode_failure;
}

abbrev decoders : Decoders
decoders = record {
  out_response = decode_out;
  read_response = λ s. none;
  health_response = λ s. none;
  spaces_envelope = λ s. none;
  tuple_list_envelope = λ s. none;
  stats_envelope = λ s. none;
  config_envelope = λ s. none;
  schema_envelope = λ s. none;
  waiters_envelope = λ s. none;
  tuple_envelope = λ s. none;
  delete_envelope = λ s. none;
  purge_envelope = λ s. none;
  notify_test_envelope = λ s. none;
}

abbrev wire : Wire rows no_sha1 never_ended wired decoders
wire = record {
  encode = encode;
  message = λ f. codes "failed";
  received = λ body. some stored;
  builds = λ space accepted. refl;
  reaches = λ space body db answer accepted h. ap (λ r. respond r db) h;
  decodes = λ space arity accepted. refl;
  decodes_failure = λ p. refl;
  has_message = λ f. refl;
}

jobs_accepted : validate_space (codes "jobs") ≡ ok tt
unfolding validate_space matches_space_pattern
jobs_accepted = refl

out-served_example :
    OutAnswer rows no_sha1 never_ended wired decoders wire
      (codes "jobs")
      stored
      []
      (Service.out rows no_sha1 (codes "jobs") stored [])
      (Requests.out wired decoders (codes "jobs") sent [])
out-served_example =
    out-served rows no_sha1 never_ended wired decoders wire (codes "jobs") (codes "{}") sent stored
      [] jobs_accepted refl refl
