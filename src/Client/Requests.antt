-- ===== src/Client/Requests.antt =====
-- The requests of the client and what it makes of the responses (internal/client/client.go,
-- internal/client/admin.go). net/http and encoding/json are parameters: the record `Http`.
pub mod Served
use tuplespace.Base.{
  ℕ, Bool, true, false, Option, none, some, List, Text, codes, leb, is_empty, trim_space, ◌++◌,
  if◌then◌else◌, ℤ, Result, ok, err, ◌>>=◌, wrap, or_fail,
}
use tuplespace.Types.{Any, Tuple, Template, FieldError, normalize_tuple}
use tuplespace.Store.Database.{SpaceSummary}
use tuplespace.Store.Filters.{TupleFilter}
use tuplespace.Store.Admin.{TupleRecord}
use tuplespace.Service.Admin.{StatsSnapshot, DeleteResult, NotifyTestResult}
use tuplespace.Service.Schema.{SchemaSnapshot}
use tuplespace.Service.Settings.{ConfigSnapshot}
use tuplespace.Service.Waiters.{WaiterInfo}
use tuplespace.Http.Paths.{space_path, tuple_path}

-- The errors, by their message.
pub data Error : Type 0 where
  marshal_failed build_failed perform_failed read_failed decode_failed : Error
  server_error : Text → Text → Error
  status_failed : ℕ → Text → Error
  normalize_failed : FieldError → Error

-- The body is missing where it cannot be read.
pub record HttpResponse : Type 0 where
  pub status : ℕ
  pub body : Option Text

pub record OutResponse : Type 0 where
  pub ok : Bool
  pub space : Text
  pub arity : ℕ

-- The bindings stay as they were decoded.
pub record ReadResponse : Type 0 where
  pub ok : Bool
  pub tuple : Tuple
  pub bindings : List (Text × Any)

-- The map that becomes the body.
pub data RequestBody : Type 0 where
  out_request : Tuple → RequestBody
  read_request : Template → ℤ → RequestBody
  filter_request : TupleFilter → RequestBody
  purge_request : TupleFilter → Bool → RequestBody
  space_request : Text → RequestBody

-- The server and the network are the state `W`; `perform` has no response where the request fails.
pub record Http (W : Type 0) : Type 0 where
  pub base_url : Text
  pub marshal : RequestBody → Option Text
  pub can_build : Text → Text → Bool
  pub perform : Text → Text → Option Text → W → Option HttpResponse × W
  pub decode_envelope : Text → Option (Text × Text)

-- The decoders of the response types.
pub record Decoders : Type 0 where
  pub out_response : Text → Option OutResponse
  pub read_response : Text → Option ReadResponse
  pub health_response : Text → Option Bool
  pub spaces_envelope : Text → Option (List SpaceSummary)
  pub tuple_list_envelope : Text → Option (List TupleRecord)
  pub stats_envelope : Text → Option StatsSnapshot
  pub config_envelope : Text → Option ConfigSnapshot
  pub schema_envelope : Text → Option SchemaSnapshot
  pub waiters_envelope : Text → Option (List WaiterInfo)
  pub tuple_envelope : Text → Option TupleRecord
  pub delete_envelope : Text → Option DeleteResult
  pub purge_envelope : Text → Option ℕ
  pub notify_test_envelope : Text → Option NotifyTestResult

module _ {W : Type 0} (http : Http W) where
  open http use {base_url, marshal, can_build, perform, decode_envelope}

  -- "request failed with status %d", with the text of the body if there is any.
  abbrev plain_failure : ℕ → Text → Error
  plain_failure status body = status_failed status (trim_space body)

  failure_of : ℕ → Text → Option (Text × Text) → Error
  failure_of status body none = plain_failure status body
  failure_of status body (some (code, message)) =
      if is_empty message then plain_failure status body else server_error code message

  unfoldable pub decode_response : {A : Type 0} → (Text → Option A) → HttpResponse → Result Error A
  unfolding failure_of
  decode_response decode res = do
    body ← or_fail read_failed res.body
    if leb 400 res.status
        then err (failure_of res.status body (decode_envelope body))
        else or_fail decode_failed (decode body)

  finish : {A : Type 0} → (Text → Option A) → Option HttpResponse × W → Result Error A × W
  unfolding decode_response
  finish decode (none, w) = (err perform_failed, w)
  finish decode (some res, w) = (decode_response decode res, w)

  -- The request and its response, for `get`, `delete` and the rest of `post`.
  unfoldable pub request :
      {A : Type 0} → Text → Text → Option Text → (Text → Option A) → W → Result Error A × W
  unfolding finish
  request method path body decode w =
      if can_build method (base_url ++ path)
      then finish decode (perform method (base_url ++ path) body w)
      else (err build_failed, w)

  post_payload : {A : Type 0} → Text → (Text → Option A) → W → Option Text → Result Error A × W
  unfolding request
  post_payload path decode w none = (err marshal_failed, w)
  post_payload path decode w (some payload) = request (codes "POST") path (some payload) decode w

  unfoldable pub post :
      {A : Type 0} → Text → RequestBody → (Text → Option A) → W → Result Error A × W
  unfolding post_payload
  post path body decode w = post_payload path decode w (marshal body)

  unfoldable pub get : {A : Type 0} → Text → (Text → Option A) → W → Result Error A × W
  unfolding request
  get path decode w = request (codes "GET") path none decode w

  unfoldable pub delete : {A : Type 0} → Text → (Text → Option A) → W → Result Error A × W
  unfolding request
  delete path decode w = request (codes "DELETE") path none decode w

  module _ (json : Decoders) where
    unfoldable pub out : Text → Tuple → W → Result Error OutResponse × W
    unfolding post
    out space tuple w =
        post (space_path space (codes "out")) (out_request tuple) json.out_response w

    -- response.Tuple = normalizedTuple
    normalized_response : ReadResponse → Result Error ReadResponse
    normalized_response r = do
      tuple ← wrap normalize_failed (normalize_tuple r.tuple)
      ok (record r { tuple = tuple })

    unfoldable pub read : Text → Template → ℤ → W → Result Error ReadResponse × W
    unfolding post normalized_response
    read path template wait_ms w =
        let (response, w') = post path (read_request template wait_ms) json.read_response w in
        (response >>= normalized_response, w')

    unfoldable pub rd : Text → Template → ℤ → W → Result Error ReadResponse × W
    rd space = read (space_path space (codes "rd"))

    unfoldable pub take_in : Text → Template → ℤ → W → Result Error ReadResponse × W
    take_in space = read (space_path space (codes "in"))

    unfoldable pub health : W → Result Error Bool × W
    health = get (codes "/healthz") json.health_response

    unfoldable pub spaces : W → Result Error (List SpaceSummary) × W
    spaces = get (codes "/v1/admin/spaces") json.spaces_envelope

    tuple_list_post : Text → TupleFilter → W → Result Error (List TupleRecord) × W
    tuple_list_post path filter = post path (filter_request filter) json.tuple_list_envelope

    unfoldable pub dump : TupleFilter → W → Result Error (List TupleRecord) × W
    unfolding tuple_list_post
    dump = tuple_list_post (codes "/v1/admin/dump")

    unfoldable pub peek : TupleFilter → W → Result Error (List TupleRecord) × W
    unfolding tuple_list_post
    peek = tuple_list_post (codes "/v1/admin/peek")

    unfoldable pub export : TupleFilter → W → Result Error (List TupleRecord) × W
    unfolding tuple_list_post
    export = tuple_list_post (codes "/v1/admin/export")

    unfoldable pub stats : W → Result Error StatsSnapshot × W
    stats = get (codes "/v1/admin/stats") json.stats_envelope

    unfoldable pub config : W → Result Error ConfigSnapshot × W
    config = get (codes "/v1/admin/config") json.config_envelope

    unfoldable pub schema : W → Result Error SchemaSnapshot × W
    schema = get (codes "/v1/admin/schema") json.schema_envelope

    unfoldable pub waiters : W → Result Error (List WaiterInfo) × W
    waiters = get (codes "/v1/admin/waiters") json.waiters_envelope

    unfoldable pub get_tuple : ℤ → W → Result Error TupleRecord × W
    get_tuple id = get (tuple_path id) json.tuple_envelope

    unfoldable pub delete_tuple : ℤ → W → Result Error DeleteResult × W
    delete_tuple id = delete (tuple_path id) json.delete_envelope

    unfoldable pub purge : TupleFilter → Bool → W → Result Error ℕ × W
    purge filter confirm =
        post (codes "/v1/admin/purge") (purge_request filter confirm) json.purge_envelope

    unfoldable pub notify_test : Text → W → Result Error NotifyTestResult × W
    notify_test space =
        post (codes "/v1/admin/notify-test") (space_request space) json.notify_test_envelope
