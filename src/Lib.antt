-- ===== src/Lib.antt =====
-- The tuple space: a server that keeps tuples of strings, integers and booleans in PostgreSQL, in named
-- spaces, and that answers out, rd and in over HTTP, with a command-line client.
--
-- The parts, and the modules that model them (paths from the root of the repository):
--
--   internal/types        Types: values, tuples, templates, their normalisation
--   internal/validation   Validation: what the service accepts
--   internal/match        Match: whether a tuple fits a template, and the bindings
--   cmd/tuplespacectl/cmds/common.go
--                         Dsl: tuple and template specs of the command line
--                         Commands.Inputs: where a command takes its tuples and templates from
--   cmd/tuplespacectl/cmds/tuple and admin
--                         Commands.Tuples, Commands.Admin: what each command sends and prints
--   cmd/tuplespaced/main.go
--                         Server: what the server opens, uses and closes
--   internal/migrations   Migrations: the SQL files, their order and their execution
--   internal/notify       Notify: the notifier's state, requests, deliveries and loop
--   internal/store        Store: the statements, the candidate query (Store.Query), the filter queries
--                         (Store.Filters), the stored payload (Store.Codec)
--   internal/service      Service: out, one attempt of a read, the blocking loop (Service.Blocking), the
--                         register of waiting reads (Service.Waiters), the administration (Service.Admin,
--                         Service.Schema, Service.Settings), several transactions at once
--                         (Service.Concurrent)
--                         The service as a tuple space: Space is the abstract view, Relational the tables
--                         and the SELECT, Service.Refinement what connects them
--   migrations/001_init_tuplespace.sql
--                         Relational: the rows of the two tables
--   internal/api/httpapi  Http: routes, handlers and the mapping of errors
--   internal/client       Client and Http.Paths: timeouts and paths; Client.Requests: the requests and
--                         what is made of the responses
--   internal/config       Config: the settings
--   strconv, strings      Strconv and Base: the calls of Go's library that the code relies on
--
-- The DSL of the client makes tuples and templates that Validation accepts; Http hands requests to
-- Service; Service validates, asks Store for candidates, takes the first that Match accepts, and waits
-- on a subscription of Notify in between. out notifies the channel of its space.
--
-- How the code is written down. A Go string is the list of its code points (Base.Strings). An error
-- result is Result, with the package's errors as constructors; messages are kept as constructors with
-- their arguments. The notifier's pointers are numbers into a heap, and its maps are association lists.
-- PostgreSQL is a record of statements (Store.Database), a parameter: what it is relied on to do is the
-- record of laws Faithful of Service.Once, and Tests.Database is a small database that meets them. A
-- transaction is a copy of the contents which a commit puts in their place. A statement gives a result
-- or an error; that it may not return is not modelled. A blocking read takes the list of what its select
-- sees, each with the contents that the other calls have left, and what the notifier does for it
-- (NotifierAnswer of Service.Blocking): Subscribe fails, succeeds or never returns, and the deferred
-- Close of the subscription returns or never does, as both do once the notifier is closed; a call that
-- never returns leaves the read hung. read_loop is the loop with the deferred unregisterWaiter, and read
-- puts Subscribe before it and Close behind it. SHA-1, time.ParseDuration and the environment are
-- parameters. int64 durations wrap around (Http.Durations).
--
-- The service as a tuple space. Space says what its users see: tuples in named spaces, oldest first;
-- put appends, oldest finds the first match, take_away removes it. Relational.Laws says what the
-- statements do to the rows of `tuples` and `tuple_fields` (a Postgres that obeys it is in Tests.Tables):
-- an INSERT appends a row, under a number that no row has; a DELETE removes the row and its fields; a
-- SELECT in the form of Relational.Select gives the rows that meet its joins, in the order of their
-- numbers, as long as no other transaction holds a lock on one. Represents relates the rows to the
-- tuples, Store.Query.Printed the text of the candidate query to the SELECT.
--
-- Bounds. format_nat prints at most format_rounds = 20 digits, which is enough for every number below
-- 10^20, and so for every int64 and uint64. No other definition runs on fuel.
--
-- Several calls at once. Service.Concurrent lets any number of consuming transactions and writers take
-- their steps in any order: a SELECT with SKIP LOCKED gives and locks rows that no other has locked, and
-- a commit or a rollback ends the transaction. A statement is one step.
--
-- The client and the programs. net/http and encoding/json are the records Http and Decoders of
-- Client.Requests; Wire of Client.Requests.Served says, of the request of Out on an accepted space
-- alone, that it is built, that the router leads it to the handler of Http, and that the two sides agree
-- on its JSON. A command's printing is a function that may refuse a row. The server's Host gives the
-- results of what it calls, and how many requests ListenAndServe leaves in flight when it returns; a run
-- gives its actions in order, with the deferred calls at their places. net/url is the record Urls of
-- Service.Settings.
--
-- Not modelled: JSON text and HTTP itself (a decoded body is an argument), SQL's execution, logging, the
-- declarations of the command-line flags, what Shutdown does once it is called, the test helpers.
pub mod Base
pub mod Strconv
pub mod Types
pub mod Validation
pub mod Match
pub mod Dsl
pub mod Notify
pub mod Store
pub mod Space
pub mod Relational
pub mod Service
pub mod Http
pub mod Client
pub mod Config
pub mod Commands
pub mod Server
pub mod Migrations
mod Tests
