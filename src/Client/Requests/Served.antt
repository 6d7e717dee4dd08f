-- ===== src/Client/Requests/Served.antt =====
-- The client's `Out` against the server (internal/client/client.go, internal/api/httpapi).
use tuplespace.Base.{
  ℕ, ◌≡◌, inl, inr, refl, ap, ◌∙◌, Bool, true, false, Option, none, some, List, Text, codes,
  is_empty, leb, length, ◌++◌, ok, err, arith, Result, Result-cases,
}
use tuplespace.Types.{Tuple}
use tuplespace.Validation.{validate_space}
use tuplespace.Store.Database.{Postgres}
use tuplespace.Service
use tuplespace.Http.{Route, handle_out, route_spaces}
use tuplespace.Http.Paths.{space_path, route_spaces-space_path}
use tuplespace.Http.Responses
use tuplespace.Http.Responses.{
  Failure, refused, ErrorPayload, Body, out_body, failure_body, Response, write_mapped_error,
  map_error,
}
use tuplespace.Http.Responses.Statuses.{refused_status}
use tuplespace.Client.Requests.{
  Error, Http, HttpResponse, Decoders, out_request, OutResponse, server_error, out, post,
  post_payload, request, finish, decode_response, failure_of,
}

module _ (pg : Postgres) (sha1 : Text → List ℕ) (ended : Service.Error → Bool) where
  open pg use {Db}

  -- What `handleOut` answers where it is the route, for a body that decodes to this tuple.
  abbrev pub served : Route → Option Tuple → Db → Option (Response × Db)
  served (handle_out space) tuple db = some (Responses.handle_out ended pg sha1 tuple space db)
  served route tuple db = none

  -- A response as the client sees it.
  abbrev pub sent_back : (Body → Text) → Response × Db → Option HttpResponse × Db
  sent_back encode (r, db) = (some (record { status = r.status; body = some (encode r.body) }), db)

  -- For the request of `Out` on a space that the server accepts: net/http builds it, it reaches the
  -- router and what its handler answers comes back, and the two sides agree in their JSON. Nothing is
  -- said of other paths or methods.
  pub record Wire (http : Http Db) (json : Decoders) : Type 0 where
    pub encode : Body → Text
    pub message : Failure → Text
    pub received : Text → Option Tuple
    pub builds :
        (space : Text)
        → validate_space space ≡ ok tt
        → http.can_build (codes "POST") (http.base_url ++ space_path space (codes "out")) ≡ true
    pub reaches :
        (space body : Text) (db : Db) (answer : Response × Db)
        → validate_space space ≡ ok tt
        → served (route_spaces (codes "POST") (space_path space (codes "out"))) (received body) db
          ≡ some answer
        → http.perform
            (codes "POST")
            (http.base_url ++ space_path space (codes "out"))
            (some body)
            db
          ≡ sent_back encode answer
    pub decodes :
        (space : Text) (arity : ℕ)
        → validate_space space ≡ ok tt
        → json.out_response (encode (out_body space arity))
          ≡ some (record { ok = true; space = space; arity = arity })
    pub decodes_failure :
        (p : ErrorPayload)
        → http.decode_envelope (encode (failure_body p)) ≡ some (p.code, message p.cause)
    pub has_message : (f : Failure) → is_empty (message f) ≡ false

  module _ (http : Http Db) (json : Decoders) (wire : Wire http json) where
    abbrev pub OutAnswer :
        Text → Tuple → Db → Result Service.Error Db → Result Error OutResponse × Db → Type 0
    OutAnswer space u db (ok d) r =
        r ≡ (ok (record { ok = true; space = space; arity = length u.fields }), d)
    OutAnswer space u db (err e) r =
        r ≡ (err (server_error (map_error ended (refused e)).1 (wire.message (refused e))), db)

    exchange :
        (space body : Text) (t u : Tuple) (db : Db)
        → validate_space space ≡ ok tt
        → http.marshal (out_request t) ≡ some body
        → wire.received body ≡ some u
        → out http json space t db
          ≡ finish http json.out_response
              (sent_back wire.encode (Responses.handle_out ended pg sha1 (some u) space db))
    unfolding out post post_payload request
    exchange space body t u db accepted written read =
        let route = (route_spaces-space_path space accepted).0 in
        let handled : served (route_spaces (codes "POST") (space_path space (codes "out")))
              (wire.received body) db
            ≡ some (Responses.handle_out ended pg sha1 (some u) space db) =
          ap (λ r. served r (wire.received body) db) route
          ∙ ap (λ o. some (Responses.handle_out ended pg sha1 o space db)) read in
        let answered = wire.reaches space body db _ accepted handled in
        rw (written, post_payload)
          (rw (wire.builds space accepted) (ap (finish http json.out_response) answered))

    failed :
        (space : Text) (db : Db) (e : Service.Error)
        → finish http json.out_response
            (sent_back wire.encode (write_mapped_error ended (refused e), db))
          ≡ (err (server_error (map_error ended (refused e)).1 (wire.message (refused e))), db)
    unfolding finish decode_response failure_of write_mapped_error
    failed space db e =
        let bad : leb 400 (map_error ended (refused e)).0 ≡ true =
          ground (arith, refused_status ended e) in
        rw bad (
          rw
            (wire.decodes_failure
              (record { code = (map_error ended (refused e)).1; cause = refused e }))
            (rw (wire.has_message (refused e)) refl))

    -- `Out` of the client, where its request is built and answered by the router, for a space that the
    -- server accepts and a tuple whose JSON the server decodes: if the service stores the decoded tuple, the client gets the space and the number of its fields; if
    -- the service fails, the client gets the code of that failure and its message, and the database is as
    -- it was.
    pub out-served :
        (space body : Text) (t u : Tuple) (db : Db)
        → validate_space space ≡ ok tt
        → http.marshal (out_request t) ≡ some body
        → wire.received body ≡ some u
        → OutAnswer space u db (Service.out pg sha1 space u db) (out http json space t db)
    unfolding finish decode_response failure_of Responses.handle_out
    out-served space body t u db accepted written read =
        let sent = exchange space body t u db accepted written read in
        elim (Result-cases (Service.out pg sha1 space u db)) [
          | inl (d, h) ↦
              rw h (sent ∙ rw h (rw (wire.decodes space (length u.fields) accepted) refl))
          | inr (e, h) ↦ rw h (sent ∙ rw h (failed space db e))
        ]
